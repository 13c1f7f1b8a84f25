-- ===== src/Vm/Round.antt =====
-- One round of `mappages` of vm.c: the entry that it makes, and those of a range.
use a.Base.{
  ℕ, ◌+◌, ◌-◌, ◌/◌, ◌%◌, ◌^◌, ◌≤◌, ◌<◌, ◌≡◌, sym, ap, ◌∙◌, ◌≢◌, ◌⊎◌, inl, inr, true, ◌&&◌, ltb, leb,
  if◌then◌else◌, arith, ok, List, length,
}
use a.Kalloc.{Kmem, page_size}
use a.Kalloc.FreeList.{IsFree}
use a.Vm.{pdx, ptx, walkpgdir, new_pte, write_pte}
use a.Vm.Entries.{has_table, entry, slot, entry-present, IsDirectory, eq_or_ne}
use a.Vm.Bits.{new_pte_lem}
use a.Vm.Walk.{Spent, Walked, walkpgdir-Walked}
use a.Vm.Store.{written, written-IsFree, written-IsDirectory, entry-written_self, entry-written_ne}

-- `perm | PTE_P`
abbrev pub flags_of : ℕ → ℕ
flags_of perm = perm - perm % 2 + 1

-- The entries `old` after the pages of `[a, stop)` are mapped to those from `pa` on.
abbrev pub mapped : ℕ → ℕ → ℕ → ℕ → (ℕ → ℕ) → ℕ → ℕ
mapped a stop pa perm old b =
    if leb a b && ltb b stop then pa + (b - b % page_size - a) + flags_of perm else old b

-- The state that `mappages` leaves, with the free pages `xs'` of `xs`.
pub record Mapped (m : Kmem) (pgdir a stop pa perm : ℕ) (m' : Kmem) (xs' : List ℕ) : Type 0 where
  pub free : IsFree m' xs'
  pub directory : IsDirectory m' pgdir xs'
  pub entries : (b : ℕ) → b < 2 ^ 32 → entry m' pgdir b ≡ mapped a stop pa perm (entry m pgdir) b

other_page :
    (a b : ℕ)
    → a < 2 ^ 32
    → b < 2 ^ 32
    → b / page_size ≢ a / page_size
    → (pdx b ≢ pdx a) ⊎ (ptx b ≢ ptx a)
other_page a b la lb ne = elim (eq_or_ne (pdx b) (pdx a)) [
  | inl p ↦ inr (λ t. ne (omega arith))
  | inr p ↦ inl p
]

-- The entries after the write of one round.
mapped_one :
    (a pa perm b : ℕ) (old new : ℕ → ℕ)
    → a % page_size ≡ 0
    → (b / page_size ≡ a / page_size → new b ≡ pa + flags_of perm)
    → (b / page_size ≢ a / page_size → new b ≡ old b)
    → new b ≡ mapped a (a + page_size) pa perm old b
mapped_one a pa perm b old new al h g = elim (eq_or_ne (b / page_size) (a / page_size)) [
  | inl e ↦ let n = h e in ground arith
  | inr ne ↦ let n = g ne in ground arith
]

module _ (m : Kmem) (pgdir a pa perm : ℕ) (xs : List ℕ) (low_a : a < 2 ^ 32)
    (page_a : a % page_size ≡ 0) (low_pa : pa < 2 ^ 32) (page_pa : pa % page_size ≡ 0)
    (low_perm : perm < page_size) where
  map_found :
      (m' : Kmem) (xs' : List ℕ) (pte : ℕ)
      → Walked m pgdir a xs pte m' xs'
      → has_table m' pgdir (pdx a) ≡ true
      → pte ≡ slot m' pgdir a
      → (m'.word pte ≡ entry m pgdir a)
        × Mapped m pgdir a (a + page_size) pa perm (write_pte pte (new_pte pa perm) m') xs'
  map_found m' xs' pte w has e = rw e (
    sym (entry-present m' pgdir a has) ∙ w.same a,
    record {
      free = written-IsFree m' pgdir a (new_pte pa perm) xs' w.free w.directory has;
      directory = written-IsDirectory m' pgdir a (new_pte pa perm) xs' w.free w.directory has;
      entries = λ b lb.
          mapped_one a pa perm b (entry m pgdir)
            (entry (written m' pgdir a (new_pte pa perm) xs' w.free w.directory has) pgdir) page_a
            (λ p.
              entry-written_self m' pgdir a (new_pte pa perm) xs' w.free w.directory has b
                (omega arith) (omega arith)
              ∙ new_pte_lem pa perm page_pa low_pa low_perm)
            (λ ne.
              entry-written_ne m' pgdir a (new_pte pa perm) xs' w.free w.directory has b
                (other_page a b low_a lb ne)
              ∙ w.same b);
    },
  )

  -- One round.
  pub map_one :
      0 < length xs
      → IsFree m xs
      → IsDirectory m pgdir xs
      → (pte : ℕ) × (m' : Kmem) × (xs' : List ℕ) × (walkpgdir pgdir a true m ≡ ok (pte, m'))
        × (pte ≢ 0)
        × (m'.word pte ≡ entry m pgdir a)
        × Spent xs xs' 1
        × Mapped m pgdir a (a + page_size) pa perm (write_pte pte (new_pte pa perm) m') xs'
  map_one room free dir =
      let (pte, m', xs', w) = walkpgdir-Walked m pgdir a xs free dir in
      elim w.found [
        | inl n ↦ absurd (let z = ap length n.1 in omega arith)
        | inr f ↦
            let (r, mp) = map_found m' xs' pte w f.1 f.2 in
            (pte, m', xs', w.run, f.0, r, w.spent, mp)
      ]

pub mapped_beyond :
    (a stop pa perm b : ℕ) (old : ℕ → ℕ) → stop ≤ b → mapped a stop pa perm old b ≡ old b
mapped_beyond a stop pa perm b old le = ground arith

-- The pages after the first, and the first.
pub mapped-step :
    (a stop pa perm b : ℕ) (old new : ℕ → ℕ)
    → a % page_size ≡ 0
    → a + page_size ≤ stop
    → new b ≡ mapped a (a + page_size) pa perm old b
    → mapped (a + page_size) stop (pa + page_size) perm new b ≡ mapped a stop pa perm old b
mapped-step a stop pa perm b old new al le e = ground arith
