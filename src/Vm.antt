-- ===== src/Vm.antt =====
-- vm.c with the macros of mmu.h: the two-level page tables of an address space, in the memory that
-- the allocator of kalloc.c hands out. A page directory and a page table are 1024 words of a page.
pub mod Space
pub mod Bytes
pub mod Bits
pub mod Entries
pub mod Enter
pub mod Walk
pub mod Store
pub mod Round
pub mod Map
pub mod Translate
pub mod Returns
pub mod Build
pub mod Clear
pub mod Grow
use a.Base.{
  ℕ, zero, suc, ◌+◌, ◌-◌, ◌*◌, ◌/◌, ◌%◌, ◌^◌, Bool, true, false, ◌&&◌, ◌||◌, not, ◌==◌, ltb, leb,
  if◌then◌else◌, Outcome, ok, panic, fault, ◌>>=◌, ℤ, pos, negsuc, minus_one, List, [], ◌∷◌,
}
use a.Kalloc.{Kmem, kalloc, page_size, kern_base, v2p, store}

abbrev pub p2v : ℕ → ℕ
p2v p = (p + kern_base) % 2 ^ 32

-- PGROUNDDOWN
abbrev pub page_round_down : ℕ → ℕ
page_round_down a = a - a % page_size

-- PDX and PTX, the indices of an address in the directory and in a table.
abbrev pub pdx : ℕ → ℕ
pdx va = va / 2 ^ 22 % 1024

abbrev pub ptx : ℕ → ℕ
ptx va = va / 2 ^ 12 % 1024

-- PTE_ADDR and PTE_FLAGS
abbrev pub pte_addr : ℕ → ℕ
pte_addr pte = pte - pte % page_size

abbrev pub pte_flags : ℕ → ℕ
pte_flags pte = pte % page_size

-- The flags PTE_P, PTE_W and PTE_U.
abbrev pub pte_p : ℕ
pte_p = 1

abbrev pub pte_w : ℕ
pte_w = 2

abbrev pub pte_u : ℕ
pte_u = 4

-- `*pte & PTE_P` and `*pte & PTE_U`, as tests.
abbrev pub present : ℕ → Bool
present pte = pte % 2 == 1

abbrev pub user : ℕ → Bool
user pte = pte / pte_u % 2 == 1

-- `a | b` of numbers of at most `n` bits.
unfoldable pub bit_or : ℕ → ℕ → ℕ → ℕ
bit_or zero a b = 0
bit_or (suc n) a b = (if (a % 2 == 0) && (b % 2 == 0) then 0 else 1) + 2 * bit_or n (a / 2) (b / 2)

-- `memset(p, 0, PGSIZE)`
unfoldable pub clear_page : (ℕ → ℕ) → ℕ → ℕ → ℕ
clear_page word p a = if leb p a && ltb a (p + page_size) then 0 else word a

abbrev pub pde_at : ℕ → ℕ → ℕ
pde_at pgdir va = pgdir + 4 * pdx va

-- The state after a new table `pgtab` is cleared and entered into the directory.
abbrev pub enter_table : ℕ → ℕ → ℕ → Kmem → Kmem
enter_table pgdir va pgtab m = record m {
  word =
      store (clear_page m.word pgtab) (pde_at pgdir va)
        (bit_or 32 (v2p pgtab) (pte_p + pte_w + pte_u));
}

-- The pointer that results is null, 0, where there is no table and none is to be or can be made.
unfoldable pub walkpgdir : ℕ → ℕ → Bool → Kmem → Outcome (ℕ × Kmem)
unfolding bit_or clear_page store
walkpgdir pgdir va alloc m =
    if present (m.word (pde_at pgdir va))
    then ok (p2v (pte_addr (m.word (pde_at pgdir va))) + 4 * ptx va, m)
    else if not alloc
    then ok (0, m)
    else do
      (pgtab, m) ← kalloc m
      if pgtab == 0 then ok (0, m) else ok (pgtab + 4 * ptx va, enter_table pgdir va pgtab m)

abbrev pub write_pte : ℕ → ℕ → Kmem → Kmem
write_pte pte x m = record m { word = store m.word pte x }

-- `pa | perm | PTE_P`
abbrev pub new_pte : ℕ → ℕ → ℕ
new_pte pa perm = bit_or 32 (bit_or 32 pa perm) pte_p

-- The loop of `mappages` on fuel; `fault` if the fuel runs out.
unfoldable pub map_loop : ℕ → ℕ → ℕ → ℕ → ℕ → ℕ → Kmem → Outcome (ℤ × Kmem)
map_loop zero pgdir a last pa perm m = fault
map_loop (suc n) pgdir a last pa perm m = do
  (pte, m) ← walkpgdir pgdir a true m
  if pte == 0 then ok (minus_one, m) else if present (m.word pte) then panic else elim (a == last) [
    | true ↦ ok (pos 0, write_pte pte (new_pte pa perm) m)
    | false ↦
        map_loop n pgdir ((a + page_size) % 2 ^ 32) last ((pa + page_size) % 2 ^ 32) perm
          (write_pte pte (new_pte pa perm) m)
  ]

-- The pages from that of `a` to `last`, around the end of the address space if need be.
abbrev pub rounds : ℕ → ℕ → ℕ
rounds a last = (last + 2 ^ 32 - a) % 2 ^ 32 / page_size + 1

unfoldable pub mappages : ℕ → ℕ → ℕ → ℕ → ℕ → Kmem → Outcome (ℤ × Kmem)
unfolding map_loop
mappages pgdir va size pa perm m =
    let a = page_round_down va in
    let last = page_round_down ((va + size + 2 ^ 32 - 1) % 2 ^ 32) in
    map_loop (rounds a last) pgdir a last pa perm m

-- `*pte` is read through a pointer that may be null.
unfoldable pub uva2ka : ℕ → ℕ → Kmem → Outcome (ℕ × Kmem)
unfolding walkpgdir
uva2ka pgdir uva m = do
  (pte, m) ← walkpgdir pgdir uva false m
  if pte == 0
      then fault
      else if not (present (m.word pte))
      then ok (0, m)
      else if not (user (m.word pte))
      then ok (0, m)
      else ok (p2v (pte_addr (m.word pte)), m)

unfoldable pub clearpteu : ℕ → ℕ → Kmem → Outcome Kmem
unfolding walkpgdir
clearpteu pgdir uva m = do
  (pte, m) ← walkpgdir pgdir uva false m
  if pte == 0
      then panic
      else ok (write_pte pte (if user (m.word pte) then m.word pte - pte_u else m.word pte) m)
