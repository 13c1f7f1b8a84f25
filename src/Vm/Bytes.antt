-- ===== src/Vm/Bytes.antt =====
-- vm.c: the bytes of user memory that the kernel writes through the page tables. The memory is one of
-- 32-bit words, the first byte of a word its lowest.
use a.Base.{
  ℕ, zero, suc, ◌+◌, ◌-◌, ◌*◌, ◌/◌, ◌%◌, ◌^◌, true, false, not, ◌==◌, ltb, leb, if◌then◌else◌,
  Outcome, ok, panic, fault, ◌>>=◌, ℤ, pos, minus_one, List, [], ◌∷◌, length, take, drop, min, none,
  some,
}
use a.Kalloc.{Kmem, kalloc, page_size, v2p, store}
use a.Vm.{p2v, page_round_down, pte_addr, pte_w, pte_u, clear_page, walkpgdir, mappages, uva2ka}
use a.Fs.{Fs}
use a.Fs.Content.{Devsw, readi}

unfoldable pub get_byte : (ℕ → ℕ) → ℕ → ℕ
get_byte word a = word (a - a % 4) / 256 ^ (a % 4) % 256

unfoldable pub put_byte : (ℕ → ℕ) → ℕ → ℕ → ℕ → ℕ
unfolding get_byte store
put_byte word a x =
    store word (a - a % 4) (word (a - a % 4) - get_byte word a * 256 ^ (a % 4) + x * 256 ^ (a % 4))

-- `memmove(dst, src, n)` for the `n` bytes `bs` that stand at `src`, outside the memory modelled.
unfoldable pub put_bytes : (ℕ → ℕ) → ℕ → List ℕ → ℕ → ℕ
unfolding put_byte
put_bytes word dst [] = word
put_bytes word dst (b ∷ bs) = put_bytes (put_byte word dst b) (dst + 1) bs

-- The result of `mappages` is not tested, nor is that of `kalloc`: a null page is written to.
unfoldable pub inituvm : ℕ → List ℕ → Kmem → Outcome Kmem
unfolding put_bytes
inituvm pgdir init m = if leb page_size (length init) then panic else do
  (mem, m) ← kalloc m
  if mem == 0 then fault else do
    (_, m) ←
        mappages pgdir 0 page_size (v2p mem) (pte_w + pte_u)
          (record m { word = clear_page m.word mem })
    ok (record m { word = put_bytes m.word mem init })

-- The loop of `loaduvm`, on fuel; `fault` if the fuel runs out.
unfoldable pub load_loop : ℕ → Devsw → ℕ → ℕ → ℕ → ℕ → ℕ → ℕ → Fs → Kmem → Outcome (ℤ × Fs × Kmem)
unfolding put_bytes
load_loop zero devsw pgdir addr ip offset i sz fs m = fault
load_loop (suc k) devsw pgdir addr ip offset i sz fs m = elim (ltb i sz) [
  | false ↦ ok (pos 0, fs, m)
  | true ↦ do
    (pte, m) ← walkpgdir pgdir ((addr + i) % 2 ^ 32) false m
    if pte == 0 then panic else do
      let n = min (sz - i) page_size
      let pa = pte_addr (m.word pte)
      (got, fs) ← readi devsw ip ((offset + i) % 2 ^ 32) n fs
      elim got [
        | none ↦ ok (minus_one, fs, m)
        | some bs ↦
            let m' = record m { word = put_bytes m.word (p2v pa) bs } in
            elim (length bs == n) [
              | true ↦ load_loop k devsw pgdir addr ip offset (i + page_size) sz fs m'
              | false ↦ ok (minus_one, fs, m')
            ]
      ]
]

unfoldable pub loaduvm : Devsw → ℕ → ℕ → ℕ → ℕ → ℕ → Fs → Kmem → Outcome (ℤ × Fs × Kmem)
unfolding load_loop
loaduvm devsw pgdir addr ip offset sz fs m =
    if not (addr % page_size == 0)
    then panic
    else load_loop (sz / page_size + 2) devsw pgdir addr ip offset 0 sz fs m

-- The loop of `copyout` for the bytes `buf`, in at most `k` rounds.
unfoldable pub copyout_loop : ℕ → ℕ → ℕ → List ℕ → Kmem → Outcome (ℤ × Kmem)
unfolding put_bytes
copyout_loop k pgdir va [] m = ok (pos 0, m)
copyout_loop zero pgdir va (b ∷ buf) m = fault
copyout_loop (suc k) pgdir va (b ∷ buf) m = do
  let va0 = page_round_down va
  (pa0, m) ← uva2ka pgdir va0 m
  let n = min (page_size - (va - va0)) (length (b ∷ buf))
  elim (pa0 == 0) [
    | true ↦ ok (minus_one, m)
    | false ↦
        copyout_loop k pgdir ((va0 + page_size) % 2 ^ 32) (drop n (b ∷ buf))
          (record m { word = put_bytes m.word (pa0 + (va - va0)) (take n (b ∷ buf)) })
  ]

-- `copyout`; every round copies a byte at least, so `len` rounds are enough.
unfoldable pub copyout : ℕ → ℕ → List ℕ → Kmem → Outcome (ℤ × Kmem)
unfolding copyout_loop
copyout pgdir va buf m = copyout_loop (length buf) pgdir va buf m
