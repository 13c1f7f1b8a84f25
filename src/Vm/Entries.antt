-- ===== src/Vm/Entries.antt =====
-- The two levels of page tables of vm.c as one map: an address space is a function from a virtual
-- address to the entry of its page, 0 where there is none.
use a.Base.{
  ℕ, ◌+◌, ◌*◌, ◌%◌, ◌^◌, ◌<◌, ◌≡◌, refl, ◌≢◌, ◌⊎◌, inl, inr, Bool, true, false, ◌==◌, if◌then◌else◌,
  arith, List, [], ◌∷◌, All, Bool-cases, ==_iff,
}
use a.Kalloc.{Kmem, page_size}
use a.Kalloc.FreeList.{Chain, Fresh}
use a.Vm.{p2v, pdx, ptx, pte_addr, present, pde_at}

abbrev pub table_of : Kmem → ℕ → ℕ → ℕ
table_of m pgdir i = p2v (pte_addr (m.word (pgdir + 4 * i)))

abbrev pub has_table : Kmem → ℕ → ℕ → Bool
has_table m pgdir i = present (m.word (pgdir + 4 * i))

unfoldable pub entry : Kmem → ℕ → ℕ → ℕ
entry m pgdir va =
    if has_table m pgdir (pdx va) then m.word (table_of m pgdir (pdx va) + 4 * ptx va) else 0

pub entry-absent :
    (m : Kmem) (pgdir va : ℕ) → has_table m pgdir (pdx va) ≡ false → entry m pgdir va ≡ 0
unfolding entry
entry-absent m pgdir va h = rw h refl

abbrev pub slot : Kmem → ℕ → ℕ → ℕ
slot m pgdir va = table_of m pgdir (pdx va) + 4 * ptx va

pub entry-present :
    (m : Kmem) (pgdir va : ℕ)
    → has_table m pgdir (pdx va) ≡ true
    → entry m pgdir va ≡ m.word (slot m pgdir va)
unfolding entry
entry-present m pgdir va h = rw h refl

pub entry-agree :
    (m m' : Kmem) (pgdir va : ℕ)
    → m'.word (pde_at pgdir va) ≡ m.word (pde_at pgdir va)
    → (has_table m pgdir (pdx va) ≡ true → m'.word (slot m pgdir va) ≡ m.word (slot m pgdir va))
    → entry m' pgdir va ≡ entry m pgdir va
unfolding entry
entry-agree m m' pgdir va e h = elim (Bool-cases (has_table m pgdir (pdx va))) [
  | inl t ↦ rw e (rw t (h t))
  | inr f ↦ rw e (rw f refl)
]

-- With the free pages `xs`, the pages of the directory and its tables are different pages, none free.
pub record IsDirectory (m : Kmem) (pgdir : ℕ) (xs : List ℕ) : Type 0 where
  pub aligned : pgdir % page_size ≡ 0
  pub used : Fresh pgdir xs
  pub bounded : All (λ x. x < 2 ^ 32) xs
  pub apart :
      (i : ℕ)
      → i < 1024
      → has_table m pgdir i ≡ true
      → (table_of m pgdir i ≢ pgdir) × (table_of m pgdir i ≢ 0) × Fresh (table_of m pgdir i) xs
  pub distinct :
      (i j : ℕ)
      → i < 1024
      → j < 1024
      → i ≢ j
      → has_table m pgdir i ≡ true
      → has_table m pgdir j ≡ true
      → table_of m pgdir i ≢ table_of m pgdir j

pub eq_or_ne : (a b : ℕ) → (a ≡ b) ⊎ (a ≢ b)
eq_or_ne a b = elim (Bool-cases (a == b)) [
  | inl e ↦ inl ((==_iff a b).0 e)
  | inr e ↦ inr (λ h. ground arith)
]

pub table_of-aligned : (m : Kmem) (pgdir i : ℕ) → table_of m pgdir i % page_size ≡ 0
table_of-aligned m pgdir i = omega arith

-- A write that keeps the first words of the free pages keeps the list.
pub Chain-agree :
    (w w' : ℕ → ℕ) (p : ℕ) (xs : List ℕ) → All (λ x. w' x ≡ w x) xs → Chain w p xs → Chain w' p xs
Chain-agree w w' p [] h c = c
Chain-agree w w' p (x ∷ xs) h c = (c.0, c.1, rw h.0 (Chain-agree w w' (w x) xs h.1 c.2))

pub All-zip :
    (P Q R : ℕ → Type 0) (xs : List ℕ)
    → ((x : ℕ) → P x → Q x → R x)
    → All P xs
    → All Q xs
    → All R xs
All-zip P Q R [] f p q = tt
All-zip P Q R (x ∷ xs) f p q = (f x p.0 q.0, All-zip P Q R xs f p.1 q.1)
