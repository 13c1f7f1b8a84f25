-- ===== src/Vm/Enter.antt =====
-- `walkpgdir` of vm.c where it enters a new table into the directory.
use a.Base.{
  ℕ, ◌+◌, ◌*◌, ◌%◌, ◌<◌, ◌≡◌, sym, ap, ◌∙◌, ◌≢◌, inl, inr, true, false, arith, List, ◌∷◌, All,
  subst,
}
use a.Kalloc.{Kmem, page_size, v2p, store}
use a.Kalloc.FreeList.{IsFree, IsPage, Fresh, taken, taken-IsFree}
use a.Vm.{pdx, ptx, pte_p, pte_w, pte_u, present, bit_or, clear_page, pde_at, enter_table}
use a.Vm.Bits.{bit_or-page}
use a.Vm.Entries.{
  table_of, has_table, entry, entry-absent, entry-present, entry-agree, IsDirectory, eq_or_ne,
  table_of-aligned, Chain-agree, All-zip,
}

-- A new table: a page `x` of the free list, for an address `va` that has none.
module _ (m : Kmem) (pgdir va x : ℕ) (xs : List ℕ) (free : IsFree m (x ∷ xs))
    (dir : IsDirectory m pgdir (x ∷ xs)) (absent : has_table m pgdir (pdx va) ≡ false) where
  abbrev pub entered : Kmem
  entered = enter_table pgdir va x (taken m x)

  pde_eq : bit_or 32 (v2p x) (pte_p + pte_w + pte_u) ≡ v2p x + 7
  pde_eq =
      let al = free.pages.0.aligned in
      bit_or-page (v2p x) 7 (omega arith) (omega arith) (omega arith)

  -- What the memory holds then.
  entered-word_table :
      (t j : ℕ)
      → t % page_size ≡ 0
      → t ≢ x
      → t ≢ pgdir
      → j < 1024
      → entered.word (t + 4 * j) ≡ m.word (t + 4 * j)
  unfolding store clear_page
  entered-word_table t j at nx np lt =
      let al = free.pages.0.aligned in let pa = dir.aligned in ground arith

  entered-word_new : (j : ℕ) → j < 1024 → entered.word (x + 4 * j) ≡ 0
  unfolding store clear_page
  entered-word_new j lt =
      let al = free.pages.0.aligned in let ne = dir.used.0 in let pa = dir.aligned in ground arith

  entered-word_pde : entered.word (pde_at pgdir va) ≡ v2p x + 7
  unfolding store
  entered-word_pde = let e = pde_eq in ground arith

  free-apart : All (λ y. (y ≢ x) × (y ≢ pgdir)) xs
  free-apart =
      All-zip (λ y. y ≢ x) (λ y. y ≢ pgdir) (λ y. (y ≢ x) × (y ≢ pgdir)) xs (λ y a b. (a, b))
        free.distinct.0 dir.used.1

  entered-word_free :
      (y : ℕ) → IsPage m.kernel_end y → (y ≢ x) × (y ≢ pgdir) → entered.word y ≡ m.word y
  unfolding store clear_page
  entered-word_free y page ne =
      let al = free.pages.0.aligned in
      let pa = dir.aligned in
      let ay = page.aligned in let n0 = ne.0 in let n1 = ne.1 in ground arith

  pub entered-IsFree : IsFree entered xs
  entered-IsFree =
      let f = taken-IsFree m x xs free in
      record {
        chain =
            Chain-agree m.word entered.word (m.word x) xs
              (All-zip (IsPage m.kernel_end) (λ y. (y ≢ x) × (y ≢ pgdir))
                (λ y. entered.word y ≡ m.word y) xs entered-word_free f.pages free-apart)
              f.chain;
        pages = f.pages;
        distinct = f.distinct;
        unlocked = f.unlocked;
      }

  pde-entered :
      (i : ℕ) → i < 1024 → i ≢ pdx va → entered.word (pgdir + 4 * i) ≡ m.word (pgdir + 4 * i)
  unfolding store clear_page
  pde-entered i lt ne =
      let al = free.pages.0.aligned in let px = dir.used.0 in let pa = dir.aligned in ground arith

  pub table-entered : table_of entered pgdir (pdx va) ≡ x
  table-entered =
      let al = free.pages.0.aligned in let lo = dir.bounded.0 in rw entered-word_pde (omega arith)

  entered-apart :
      (i : ℕ)
      → i < 1024
      → has_table entered pgdir i ≡ true
      → (table_of entered pgdir i ≢ pgdir)
        × (table_of entered pgdir i ≢ 0)
        × Fresh (table_of entered pgdir i) xs
  entered-apart i lt has = elim (eq_or_ne i (pdx va)) [
    | inl e ↦ rw e (rw table-entered ((λ h. dir.used.0 h), free.chain.1, free.distinct.0))
    | inr ne ↦
        let e = pde-entered i lt ne in
        let h = dir.apart i lt (subst (λ w. present w ≡ true) e has) in rw e (h.0, h.1, h.2.1)
  ]

  -- The new page is no table of `m`.
  new-distinct :
      (i : ℕ)
      → i < 1024
      → i ≢ pdx va
      → has_table entered pgdir i ≡ true
      → x ≢ table_of entered pgdir i
  new-distinct i lt ne has =
      let e = pde-entered i lt ne in
      let h = dir.apart i lt (subst (λ w. present w ≡ true) e has) in rw e h.2.0

  entered-distinct :
      (i j : ℕ)
      → i < 1024
      → j < 1024
      → i ≢ j
      → has_table entered pgdir i ≡ true
      → has_table entered pgdir j ≡ true
      → table_of entered pgdir i ≢ table_of entered pgdir j
  entered-distinct i j li lj ne hi hj = elim (eq_or_ne i (pdx va)) [
    | inl a ↦ rw a (rw table-entered (new-distinct j lj (λ b. ne (a ∙ sym b)) hj))
    | inr a ↦ elim (eq_or_ne j (pdx va)) [
      | inl b ↦ rw b (rw table-entered (λ h. new-distinct i li a hi (sym h)))
      | inr b ↦
          let ei = pde-entered i li a in
          let ej = pde-entered j lj b in
          rw ei (
            rw ej (
              dir.distinct i j li lj ne (subst (λ w. present w ≡ true) ei hi)
                (subst (λ w. present w ≡ true) ej hj)))
    ]
  ]

  pub entered-IsDirectory : IsDirectory entered pgdir xs
  entered-IsDirectory = record {
    aligned = dir.aligned;
    used = dir.used.1;
    bounded = dir.bounded.1;
    apart = entered-apart;
    distinct = entered-distinct;
  }

  pub has_table-entered : has_table entered pgdir (pdx va) ≡ true
  has_table-entered = let al = free.pages.0.aligned in rw entered-word_pde (ground arith)

  pub entry-entered : (a : ℕ) → entry entered pgdir a ≡ entry m pgdir a
  entry-entered a = elim (eq_or_ne (pdx a) (pdx va)) [
    | inl e ↦
        entry-present entered pgdir a (rw e has_table-entered)
        ∙ ap (λ t. entered.word (t + 4 * ptx a)) (ap (table_of entered pgdir) e ∙ table-entered)
        ∙ entered-word_new (ptx a) (omega arith)
        ∙ sym (entry-absent m pgdir a (rw e absent))
    | inr ne ↦ entry-agree m entered pgdir a (pde-entered (pdx a) (omega arith) ne) (λ has.
        let h = dir.apart (pdx a) (omega arith) has in
        entered-word_table (table_of m pgdir (pdx a)) (ptx a) (table_of-aligned m pgdir (pdx a))
          (λ e. h.2.0 (sym e)) h.0 (omega arith))
  ]
