-- ===== src/Vm/Walk.antt =====
-- `walkpgdir` of vm.c over well-formed page tables.
use a.Base.{
  ℕ, ◌+◌, ◌*◌, ◌≤◌, ◌≡◌, refl, sym, ap, ◌≢◌, ◌⊎◌, inl, inr, true, false, ◌==◌, arith, ok, List, [],
  ◌∷◌, Bool-cases, length,
}
use a.Kalloc.{Kmem}
use a.Kalloc.FreeList.{IsFree, Fresh, kalloc-eq-taken, kalloc-nil}
use a.Vm.{pdx, ptx, walkpgdir}
use a.Vm.Entries.{has_table, entry, slot, IsDirectory}
use a.Vm.Enter.{
  entered, entered-IsFree, entered-IsDirectory, entry-entered, has_table-entered, table-entered,
}

-- At most `n` pages of the free list `xs` are gone from `xs'`, and none has come.
pub record Spent (xs xs' : List ℕ) (n : ℕ) : Type 0 where
  pub count : length xs ≤ length xs' + n
  pub fewer : (v : ℕ) → Fresh v xs → Fresh v xs'

pub Spent-trans :
    (xs ys zs : List ℕ) (i j n : ℕ) → Spent xs ys i → Spent ys zs j → i + j ≤ n → Spent xs zs n
Spent-trans xs ys zs i j n p q le =
    let c = p.count in
    let d = q.count in record { count = omega arith; fewer = λ v f. q.fewer v (p.fewer v f) }

-- Where `walkpgdir` with `alloc` leaves the memory: nothing of the address space has changed, and
-- `pte` points at the entry, or is null because there was no page left for a table.
pub record Walked (m : Kmem) (pgdir va : ℕ) (xs : List ℕ) (pte : ℕ) (m' : Kmem) (xs' : List ℕ)
    : Type 0 where
  pub run : walkpgdir pgdir va true m ≡ ok (pte, m')
  pub free : IsFree m' xs'
  pub directory : IsDirectory m' pgdir xs'
  pub same : (a : ℕ) → entry m' pgdir a ≡ entry m pgdir a
  pub spent : Spent xs xs' 1
  pub found :
      ((pte ≡ 0) × (xs ≡ []))
      ⊎ ((pte ≢ 0) × (has_table m' pgdir (pdx va) ≡ true) × (pte ≡ slot m' pgdir va))

module _ (m : Kmem) (pgdir va : ℕ) (xs : List ℕ) (free : IsFree m xs)
    (dir : IsDirectory m pgdir xs) where
  walkpgdir-present :
      has_table m pgdir (pdx va) ≡ true → Walked m pgdir va xs (slot m pgdir va) m xs
  unfolding walkpgdir
  walkpgdir-present has = record {
    run = rw has refl;
    free = free;
    directory = dir;
    same = λ a. refl;
    spent = record { count = omega arith; fewer = λ v f. f };
    found = inr (nonnull, has, refl);
  }
    where
      nonnull : slot m pgdir va ≢ 0
      nonnull = let h = (dir.apart (pdx va) (omega arith) has).1 in λ e. h (omega arith)

walkpgdir-full :
    (m : Kmem) (pgdir va : ℕ)
    → IsFree m []
    → IsDirectory m pgdir []
    → has_table m pgdir (pdx va) ≡ false
    → Walked m pgdir va [] 0 m []
unfolding walkpgdir
walkpgdir-full m pgdir va free dir absent = record {
  run = rw absent (rw (kalloc-nil m free) refl);
  free = free;
  directory = dir;
  same = λ a. refl;
  spent = record { count = omega arith; fewer = λ v f. f };
  found = inl (refl, refl);
}

walkpgdir-entered :
    (m : Kmem) (pgdir va x : ℕ) (xs : List ℕ) (free : IsFree m (x ∷ xs))
    (dir : IsDirectory m pgdir (x ∷ xs)) (absent : has_table m pgdir (pdx va) ≡ false)
    → Walked m pgdir va (x ∷ xs) (x + 4 * ptx va) (entered m pgdir va x xs free dir absent) xs
unfolding walkpgdir
walkpgdir-entered m pgdir va x xs free dir absent = record {
  run = rw absent (rw (kalloc-eq-taken m x xs free) (rw nonzero refl));
  free = entered-IsFree m pgdir va x xs free dir absent;
  directory = entered-IsDirectory m pgdir va x xs free dir absent;
  same = entry-entered m pgdir va x xs free dir absent;
  spent = record { count = omega arith; fewer = λ v f. f.1 };
  found = inr (
    (λ e. free.chain.1 (omega arith)),
    has_table-entered m pgdir va x xs free dir absent,
    ap (λ t. t + 4 * ptx va) (sym (table-entered m pgdir va x xs free dir absent)),
  );
}
  where
    nonzero : (x == 0) ≡ false
    nonzero = let h = free.chain.1 in ground arith

-- For page tables that are well-formed and a list of free pages, `walkpgdir` with `alloc` returns, with
-- the tables well-formed, at most one page fewer on the free list and none new, and every entry of the
-- address space as before. It returns null only where no page was free, and otherwise a pointer to
-- the entry of the address, in a table that the directory holds.
pub walkpgdir-Walked :
    (m : Kmem) (pgdir va : ℕ) (xs : List ℕ)
    → IsFree m xs
    → IsDirectory m pgdir xs
    → (pte : ℕ) × (m' : Kmem) × (xs' : List ℕ) × Walked m pgdir va xs pte m' xs'
walkpgdir-Walked m pgdir va [] free dir = elim (Bool-cases (has_table m pgdir (pdx va))) [
  | inl has ↦ (_, _, _, walkpgdir-present m pgdir va [] free dir has)
  | inr absent ↦ (_, _, _, walkpgdir-full m pgdir va free dir absent)
]
walkpgdir-Walked m pgdir va (x ∷ xs) free dir = elim (Bool-cases (has_table m pgdir (pdx va))) [
  | inl has ↦ (_, _, _, walkpgdir-present m pgdir va (x ∷ xs) free dir has)
  | inr absent ↦ (_, _, _, walkpgdir-entered m pgdir va x xs free dir absent)
]
