-- ===== src/Vm/Store.antt =====
-- A write of vm.c to the entry of a page that has a table.
use a.Base.{
  ℕ, ◌+◌, ◌*◌, ◌%◌, ◌<◌, ◌≡◌, sym, ap, ap₂, ◌∙◌, ◌≢◌, ◌⊎◌, inl, inr, true, arith, List, subst,
}
use a.Kalloc.{Kmem, page_size, store}
use a.Kalloc.FreeList.{IsFree, IsPage}
use a.Vm.{p2v, pdx, ptx, pte_addr, write_pte}
use a.Vm.Entries.{
  table_of, has_table, entry, slot, entry-present, entry-agree, IsDirectory, eq_or_ne,
  table_of-aligned, Chain-agree, All-zip,
}

module _ (m : Kmem) (pgdir va v : ℕ) (xs : List ℕ) (free : IsFree m xs)
    (dir : IsDirectory m pgdir xs) (has : has_table m pgdir (pdx va) ≡ true) where
  abbrev pub written : Kmem
  written = write_pte (slot m pgdir va) v m

  -- The table's page is apart from the directory and from another page `t`.
  written-word_apart :
      (t j : ℕ)
      → t % page_size ≡ 0
      → t ≢ table_of m pgdir (pdx va)
      → j < 1024
      → written.word (t + 4 * j) ≡ m.word (t + 4 * j)
  unfolding store
  written-word_apart t j at ne lt =
      let ta = table_of-aligned m pgdir (pdx va) in
      let far : t + 4 * j ≢ slot m pgdir va = λ e. ne (omega arith) in ground arith

  written-word_ne : (a : ℕ) → a ≢ slot m pgdir va → written.word a ≡ m.word a
  unfolding store
  written-word_ne a ne = ground arith

  same_table : (a : ℕ) → pdx a ≡ pdx va → slot m pgdir a ≡ slot m pgdir va → ptx a ≡ ptx va
  same_table a p e = let t = ap (table_of m pgdir) p in omega arith

  written-word_self : written.word (slot m pgdir va) ≡ v
  unfolding store
  written-word_self = ground arith

  pde-written : (i : ℕ) → i < 1024 → written.word (pgdir + 4 * i) ≡ m.word (pgdir + 4 * i)
  pde-written i lt =
      written-word_apart pgdir i dir.aligned (λ e. (dir.apart (pdx va) (omega arith) has).0 (sym e))
        lt

  written-word_free :
      (y : ℕ) → IsPage m.kernel_end y → y ≢ table_of m pgdir (pdx va) → written.word y ≡ m.word y
  written-word_free y page ne =
      let start : y + 4 * 0 ≡ y = omega arith in
      subst (λ z. written.word z ≡ m.word z) start
        (written-word_apart y 0 page.aligned ne (omega arith))

  pub written-IsFree : IsFree written xs
  written-IsFree = record {
    chain =
        Chain-agree m.word written.word m.freelist xs
          (All-zip (IsPage m.kernel_end) (λ y. y ≢ table_of m pgdir (pdx va))
            (λ y. written.word y ≡ m.word y) xs written-word_free free.pages
            (dir.apart (pdx va) (omega arith) has).2)
          free.chain;
    pages = free.pages;
    distinct = free.distinct;
    unlocked = free.unlocked;
  }

  pub written-IsDirectory : IsDirectory written pgdir xs
  written-IsDirectory = record {
    aligned = dir.aligned;
    used = dir.used;
    bounded = dir.bounded;
    apart = λ i lt. rw (pde-written i lt) (dir.apart i lt);
    distinct =
        λ i j li lj ne. rw (pde-written i li) (rw (pde-written j lj) (dir.distinct i j li lj ne));
  }

  -- The entry of the page itself, of another page with the same table, and of one with another.
  pub entry-written_self : (a : ℕ) → pdx a ≡ pdx va → ptx a ≡ ptx va → entry written pgdir a ≡ v
  entry-written_self a p t =
      entry-present written pgdir a (rw p (rw (pde-written (pdx va) (omega arith)) has))
      ∙ ap written.word (ap₂ (λ x j. x + 4 * j) table t)
      ∙ written-word_self
    where
      table : table_of written pgdir (pdx a) ≡ table_of m pgdir (pdx va)
      table =
          ap (table_of written pgdir) p
          ∙ ap (λ w. p2v (pte_addr w)) (pde-written (pdx va) (omega arith))

  pub entry-written_ne :
      (a : ℕ) → (pdx a ≢ pdx va) ⊎ (ptx a ≢ ptx va) → entry written pgdir a ≡ entry m pgdir a
  entry-written_ne a ne =
      entry-agree m written pgdir a (pde-written (pdx a) (omega arith))
        (elim ne [ inl p ↦ other p | inr t ↦ same t ])
    where
      other :
          pdx a ≢ pdx va
          → has_table m pgdir (pdx a) ≡ true
          → written.word (slot m pgdir a) ≡ m.word (slot m pgdir a)
      other p ha =
          written-word_apart (table_of m pgdir (pdx a)) (ptx a) (table_of-aligned m pgdir (pdx a))
            (dir.distinct (pdx a) (pdx va) (omega arith) (omega arith) p ha has) (omega arith)

      same :
          ptx a ≢ ptx va
          → has_table m pgdir (pdx a) ≡ true
          → written.word (slot m pgdir a) ≡ m.word (slot m pgdir a)
      same t ha = elim (eq_or_ne (pdx a) (pdx va)) [
        | inl p ↦ written-word_ne (slot m pgdir a) (λ e. t (same_table a p e))
        | inr p ↦ other p ha
      ]
