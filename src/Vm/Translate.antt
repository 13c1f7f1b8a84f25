-- ===== src/Vm/Translate.antt =====
-- `uva2ka` of vm.c, and the translation of the addresses that `mappages` has mapped.
use a.Base.{
  ℕ, suc, ◌+◌, ◌-◌, ◌*◌, ◌%◌, ◌^◌, ◌≤◌, ◌<◌, ◌≡◌, refl, ap, ◌∙◌, ◌≢◌, inl, inr, true, false, not,
  ◌&&◌, ◌==◌, if◌then◌else◌, arith, Outcome, ok, pos, fault, List, Bool-cases, length,
}
use a.Kalloc.{Kmem, page_size}
use a.Kalloc.FreeList.{IsFree}
use a.Vm.{p2v, pdx, ptx, pte_addr, present, walkpgdir}
use a.Vm.Entries.{table_of, has_table, entry, entry-absent, slot, entry-present, IsDirectory}
use a.Vm.{mappages}
use a.Vm.Round.{flags_of, Mapped}
use a.Vm.Map.{mappages-Mapped}
use a.Vm.{uva2ka, user}

-- What `uva2ka` gives for an address whose page has the entry `e`.
abbrev pub kernel_address : ℕ → ℕ
kernel_address e = if present e && user e then p2v (pte_addr e) else 0

-- The two tests of `uva2ka`, and what they come to.
abbrev tested : ℕ → Kmem → Outcome (ℕ × Kmem)
tested e m =
    if not (present e)
    then ok (0, m)
    else if not (user e)
    then ok (0, m)
    else ok (p2v (pte_addr e), m)

read_pte : (e : ℕ) (m : Kmem) → tested e m ≡ ok (kernel_address e, m)
read_pte e m = ground arith

-- Over well-formed page tables `uva2ka` changes nothing, and gives the kernel address of the page of a
-- present user entry and 0 for any other; where the directory has no table for the address, it reads
-- through a null pointer.
pub uva2ka_lem :
    (m : Kmem) (pgdir va : ℕ) (xs : List ℕ)
    → IsDirectory m pgdir xs
    → uva2ka pgdir va m
      ≡ (if has_table m pgdir (pdx va) then ok (kernel_address (entry m pgdir va), m) else fault)
unfolding uva2ka walkpgdir
uva2ka_lem m pgdir va xs dir = elim (Bool-cases (has_table m pgdir (pdx va))) [
  | inr absent ↦ rw absent refl
  | inl has ↦
      let nz : (slot m pgdir va == 0) ≡ false =
        (let h = (dir.apart (pdx va) (omega arith) has).1 in
          nonzero (table_of m pgdir (pdx va)) (ptx va) h) in
      rw (entry-present m pgdir va has) (rw has (rw nz (read_pte (m.word (slot m pgdir va)) m)))
]
  where
    nonzero : (t j : ℕ) → t ≢ 0 → (t + 4 * j == 0) ≡ false
    nonzero t j h = ground arith

has_table-of_entry :
    (m : Kmem) (pgdir va : ℕ) → entry m pgdir va ≢ 0 → has_table m pgdir (pdx va) ≡ true
has_table-of_entry m pgdir va h = elim (Bool-cases (has_table m pgdir (pdx va))) [
  | inl has ↦ has
  | inr absent ↦ absurd (h (entry-absent m pgdir va absent))
]

kernel_address-flags :
    (p perm : ℕ)
    → p % page_size ≡ 0
    → perm < page_size
    → user perm ≡ true
    → kernel_address (p + flags_of perm) ≡ p2v p
kernel_address-flags p perm h lf us = ground arith

translate_range :
    (m m' : Kmem) (pgdir va stop pa perm b : ℕ) (xs : List ℕ)
    → Mapped m pgdir va stop pa perm m' xs
    → pa % page_size ≡ 0
    → va % page_size ≡ 0
    → perm < page_size
    → user perm ≡ true
    → va ≤ b
    → b < stop
    → stop ≤ 2 ^ 32
    → uva2ka pgdir b m' ≡ ok (p2v (pa + (b - b % page_size - va)), m')
translate_range m m' pgdir va stop pa perm b xs mp page al lf us lo hi top =
    let e = mp.entries b (omega arith) in
    let is : entry m' pgdir b ≡ pa + (b - b % page_size - va) + flags_of perm = ground arith in
    uva2ka_lem m' pgdir b xs mp.directory
    ∙ rw (has_table-of_entry m' pgdir b (λ z. absurd (omega arith))) (
        rw is (
          ap (λ x. ok (x, m'))
            (kernel_address-flags (pa + (b - b % page_size - va)) perm (omega arith) lf us)))

-- After `mappages` with PTE_U of `n + 1` pages, none of them mapped before and more than `n` pages free,
-- `uva2ka` of every address of the range is the kernel address of the physical page that
-- corresponds to it.
pub mappages-uva2ka :
    (m : Kmem) (pgdir va n pa perm : ℕ) (xs : List ℕ)
    → va % page_size ≡ 0
    → va + suc n * page_size ≤ 2 ^ 32
    → pa % page_size ≡ 0
    → pa + suc n * page_size ≤ 2 ^ 32
    → perm < page_size
    → user perm ≡ true
    → n < length xs
    → IsFree m xs
    → IsDirectory m pgdir xs
    → ((b : ℕ) → va ≤ b → b < va + suc n * page_size → present (entry m pgdir b) ≡ false)
    → (m' : Kmem) × (mappages pgdir va (suc n * page_size) pa perm m ≡ ok (pos 0, m'))
      × ((b : ℕ)
          → va ≤ b
          → b < va + suc n * page_size
          → uva2ka pgdir b m' ≡ ok (p2v (pa + (b - b % page_size - va)), m'))
mappages-uva2ka m pgdir va n pa perm xs al la page lp lf us room free dir absent =
    let (m', xs', run, count, mp) =
      mappages-Mapped m pgdir va n pa perm xs al la page lp lf room free dir absent in
    (
      m',
      run,
      λ b lo hi.
          translate_range m m' pgdir va (va + suc n * page_size) pa perm b xs' mp page al lf us lo
            hi la,
    )
