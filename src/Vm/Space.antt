-- ===== src/Vm/Space.antt =====
-- vm.c: the operations on the user part of an address space, and the kernel part of one.
use a.Base.{
  ℕ, zero, suc, ◌+◌, ◌-◌, ◌*◌, ◌/◌, ◌%◌, ◌^◌, true, false, ◌&&◌, not, ◌==◌, ltb, leb, if◌then◌else◌,
  Outcome, ok, panic, fault, ◌>>=◌, pos, negsuc, List, [], ◌∷◌,
}
use a.Kalloc.{Kmem, kalloc, kfree, page_size, kern_base, phys_stop, v2p, page_round_up}
use a.Vm.{
  p2v, pdx, pte_addr, pte_flags, pte_w, pte_u, present, clear_page, walkpgdir, mappages, write_pte,
}

-- PGADDR, for an index `d` of at most 1024 and indices `t` and `o` in range.
abbrev pub pgaddr : ℕ → ℕ → ℕ → ℕ
pgaddr d t o = (d * 2 ^ 22 + t * 2 ^ 12 + o) % 2 ^ 32

-- What `deallocuvm` does with the entry that it finds.
abbrev pub free_pte : ℕ → Kmem → Outcome Kmem
free_pte pte m =
    if not (present (m.word pte))
    then ok m
    else if pte_addr (m.word pte) == 0
    then panic
    else do let pa = pte_addr (m.word pte); m ← kfree (p2v pa) m; ok (write_pte pte 0 m)

-- Where there is no table, the loop goes on at the next one.
abbrev pub next_table : ℕ → ℕ
next_table a = (pgaddr (pdx a + 1) 0 0 + 2 ^ 32 - page_size + page_size) % 2 ^ 32

-- The loop of `deallocuvm` on fuel; `fault` if the fuel runs out.
unfoldable pub dealloc_loop : ℕ → ℕ → ℕ → ℕ → Kmem → Outcome Kmem
dealloc_loop zero pgdir a oldsz m = fault
dealloc_loop (suc n) pgdir a oldsz m = elim (ltb a oldsz) [
  | false ↦ ok m
  | true ↦ do
    (pte, m) ← walkpgdir pgdir a false m
    elim (pte == 0) [
      | true ↦ dealloc_loop n pgdir (next_table a) oldsz m
      | false ↦ free_pte pte m >>= dealloc_loop n pgdir ((a + page_size) % 2 ^ 32) oldsz
    ]
]

unfoldable pub deallocuvm : ℕ → ℕ → ℕ → Kmem → Outcome (ℕ × Kmem)
unfolding dealloc_loop
deallocuvm pgdir oldsz newsz m = if leb oldsz newsz then ok (oldsz, m) else do
  m ← dealloc_loop (oldsz / page_size + 2) pgdir (page_round_up newsz) oldsz m
  ok (newsz, m)

-- The loop of `freevm` over the `n` entries of the directory from `i` on.
unfoldable pub table_loop : ℕ → ℕ → ℕ → Kmem → Outcome Kmem
table_loop zero i pgdir m = ok m
table_loop (suc n) i pgdir m = elim (present (m.word (pgdir + 4 * i))) [
  | true ↦ kfree (p2v (pte_addr (m.word (pgdir + 4 * i)))) m >>= table_loop n (i + 1) pgdir
  | false ↦ table_loop n (i + 1) pgdir m
]

unfoldable pub freevm : ℕ → Kmem → Outcome Kmem
unfolding deallocuvm table_loop
freevm pgdir m =
    if pgdir == 0
    then panic
    else do (_, m) ← deallocuvm pgdir kern_base 0 m; m ← table_loop 1024 0 pgdir m; kfree pgdir m

-- An entry of `kmap`.
pub record Kmap : Type 0 where
  pub virt : ℕ
  pub phys_start : ℕ
  pub phys_end : ℕ
  pub perm : ℕ

abbrev pub ext_mem : ℕ
ext_mem = 0x100000

abbrev pub dev_space : ℕ
dev_space = 0xfe000000

abbrev pub kern_link : ℕ
kern_link = kern_base + ext_mem

-- `kmap`; `data` is the linker's symbol.
abbrev pub kmap : ℕ → List Kmap
kmap data_start =
    record { virt = kern_base; phys_start = 0; phys_end = ext_mem; perm = pte_w }
    ∷ record { virt = kern_link; phys_start = v2p kern_link; phys_end = v2p data_start; perm = 0 }
    ∷ record { virt = data_start; phys_start = v2p data_start; phys_end = phys_stop; perm = pte_w }
    ∷ record { virt = dev_space; phys_start = dev_space; phys_end = 0; perm = pte_w }
    ∷ []

-- The loop of `setupkvm`; the result 0 is null.
unfoldable pub kmap_loop : ℕ → List Kmap → Kmem → Outcome (ℕ × Kmem)
kmap_loop pgdir [] m = ok (pgdir, m)
kmap_loop pgdir (k ∷ ks) m = do
  (r, m) ←
      mappages pgdir k.virt ((k.phys_end + 2 ^ 32 - k.phys_start) % 2 ^ 32) k.phys_start k.perm m
  elim r [ negsuc _ ↦ do m ← freevm pgdir m; ok (0, m) | pos _ ↦ kmap_loop pgdir ks m ]

unfoldable pub setupkvm : ℕ → Kmem → Outcome (ℕ × Kmem)
unfolding kmap_loop
setupkvm data_start m = do
  (pgdir, m) ← kalloc m
  if pgdir == 0
      then ok (0, m)
      else if ltb dev_space (p2v phys_stop)
      then panic
      else kmap_loop pgdir (kmap data_start) (record m { word = clear_page m.word pgdir })

-- The loop of `allocuvm` on fuel; `fault` if the fuel runs out.
unfoldable pub allocuvm_loop : ℕ → ℕ → ℕ → ℕ → ℕ → Kmem → Outcome (ℕ × Kmem)
allocuvm_loop zero pgdir a oldsz newsz m = fault
allocuvm_loop (suc n) pgdir a oldsz newsz m = elim (ltb a newsz) [
  | false ↦ ok (newsz, m)
  | true ↦ do
    (mem, m) ← kalloc m
    elim (mem == 0) [
      | true ↦ do (_, m) ← deallocuvm pgdir newsz oldsz m; ok (0, m)
      | false ↦ do
        (r, m) ←
            mappages pgdir a page_size (v2p mem) (pte_w + pte_u)
              (record m { word = clear_page m.word mem })
        elim r [
          | negsuc _ ↦ do (_, m) ← deallocuvm pgdir newsz oldsz m; m ← kfree mem m; ok (0, m)
          | pos _ ↦ allocuvm_loop n pgdir (a + page_size) oldsz newsz m
        ]
    ]
]

unfoldable pub allocuvm : ℕ → ℕ → ℕ → Kmem → Outcome (ℕ × Kmem)
unfolding allocuvm_loop
allocuvm pgdir oldsz newsz m =
    if leb kern_base newsz
    then ok (0, m)
    else if ltb newsz oldsz
    then ok (oldsz, m)
    else allocuvm_loop (newsz / page_size + 2) pgdir (page_round_up oldsz) oldsz newsz m

-- `memmove(dst, src, PGSIZE)` of one page to another.
unfoldable pub copy_page : (ℕ → ℕ) → ℕ → ℕ → ℕ → ℕ
copy_page word dst src a =
    if leb dst a && ltb a (dst + page_size) then word (src + (a - dst)) else word a

-- The pages from `i` on, copied into the directory `d`; `fault` if the fuel runs out.
unfoldable pub copy_loop : ℕ → ℕ → ℕ → ℕ → ℕ → Kmem → Outcome (ℕ × Kmem)
unfolding copy_page
copy_loop zero d pgdir i sz m = fault
copy_loop (suc n) d pgdir i sz m = elim (ltb i sz) [
  | false ↦ ok (d, m)
  | true ↦ do
    (pte, m) ← walkpgdir pgdir i false m
    if pte == 0 then panic else if not (present (m.word pte)) then panic else do
      let entry = m.word pte
      (mem, m) ← kalloc m
      elim (mem == 0) [
        | true ↦ do m ← freevm d m; ok (0, m)
        | false ↦ do
          (r, m) ←
              mappages d i page_size (v2p mem) (pte_flags entry)
                (record m { word = copy_page m.word mem (p2v (pte_addr entry)) })
          elim r [
            | negsuc _ ↦ do m ← kfree mem m; m ← freevm d m; ok (0, m)
            | pos _ ↦ copy_loop n d pgdir (i + page_size) sz m
          ]
      ]
]

-- `copyuvm`, for a size in the user's half of the address space.
unfoldable pub copyuvm : ℕ → ℕ → ℕ → Kmem → Outcome (ℕ × Kmem)
unfolding copy_loop
copyuvm data_start pgdir sz m = do
  (d, m) ← setupkvm data_start m
  if d == 0 then ok (0, m) else copy_loop (sz / page_size + 2) d pgdir 0 sz m
