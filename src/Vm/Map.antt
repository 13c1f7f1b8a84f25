-- ===== src/Vm/Map.antt =====
-- `mappages` of vm.c: the entries that it makes, for a range that has none.
use a.Base.{
  ℕ, zero, suc, ◌+◌, ◌-◌, ◌*◌, ◌%◌, ◌^◌, ◌≤◌, ◌<◌, ◌≡◌, refl, ap, ◌∙◌, ◌≢◌, true, false, ◌==◌,
  arith, ok, pos, List, length,
}
use a.Kalloc.{Kmem, page_size}
use a.Kalloc.FreeList.{IsFree}
use a.Vm.{present, walkpgdir, new_pte, write_pte}
use a.Vm.Entries.{entry, IsDirectory}
use a.Vm.Walk.{Spent, Spent-trans}
use a.Vm.{map_loop, mappages, page_round_down, rounds}
use a.Vm.Round.{Mapped, mapped_beyond, mapped-step, map_one}

-- The last round, and one before it.
module _ (n pgdir a last pa perm pte : ℕ) (m m' : Kmem)
    (run : walkpgdir pgdir a true m ≡ ok (pte, m')) (nonnull : pte ≢ 0)
    (fresh : present (m'.word pte) ≡ false) where
  null_test : (pte == 0) ≡ false
  null_test = ground arith

  map_loop-end :
      last ≡ a
      → map_loop (suc n) pgdir a last pa perm m ≡ ok (pos 0, write_pte pte (new_pte pa perm) m')
  unfolding map_loop
  map_loop-end e =
      let is_last : (a == last) ≡ true = ground arith in
      rw run (rw null_test (rw fresh (rw is_last refl)))

  map_loop-next :
      a + page_size ≤ last
      → last < 2 ^ 32
      → pa + page_size < 2 ^ 32
      → map_loop (suc n) pgdir a last pa perm m
        ≡ map_loop n pgdir
            (a + page_size)
            last
            (pa + page_size)
            perm
            (write_pte pte (new_pte pa perm) m')
  unfolding map_loop
  map_loop-next le lt lp =
      let is_last : (a == last) ≡ false = ground arith in
      let next_a : (a + page_size) % 2 ^ 32 ≡ a + page_size = omega arith in
      let next_pa : (pa + page_size) % 2 ^ 32 ≡ pa + page_size = omega arith in
      rw run (rw null_test (rw fresh (rw is_last (rw next_a (rw next_pa refl)))))

module _ (pgdir perm last : ℕ) (low_perm : perm < page_size) (low_last : last < 2 ^ 32) where
  pub map_loop-Mapped :
      (n : ℕ) (m : Kmem) (a pa : ℕ) (xs : List ℕ)
      → last ≡ a + n * page_size
      → a % page_size ≡ 0
      → pa + n * page_size < 2 ^ 32
      → pa % page_size ≡ 0
      → n < length xs
      → IsFree m xs
      → IsDirectory m pgdir xs
      → ((b : ℕ) → a ≤ b → b < last + page_size → present (entry m pgdir b) ≡ false)
      → (m' : Kmem) × (xs' : List ℕ) × (map_loop (suc n) pgdir a last pa perm m ≡ ok (pos 0, m'))
        × Spent xs xs' (n + 1)
        × Mapped m pgdir a (last + page_size) pa perm m' xs'
  map_loop-Mapped zero m a pa xs el al lp page room free dir absent =
      let (pte, m1, xs1, run, nonnull, at, spent, one) =
        map_one m pgdir a pa perm xs (omega arith) al (omega arith) page low_perm (omega arith) free
          dir in
      let e : last ≡ a = omega arith in
      let np : present (m1.word pte) ≡ false = rw at (absent a (omega arith) (omega arith)) in
      (
        write_pte pte (new_pte pa perm) m1,
        xs1,
        map_loop-end 0 pgdir a last pa perm pte m m1 run nonnull np e,
        spent,
        rw e one,
      )
  map_loop-Mapped (suc n) m a pa xs el al lp page room free dir absent =
      let (pte, m1, xs1, run, nonnull, at, spent, one) =
        map_one m pgdir a pa perm xs (omega arith) al (omega arith) page low_perm (omega arith) free
          dir in
      let enough = spent.count in
      let np : present (m1.word pte) ≡ false = rw at (absent a (omega arith) (omega arith)) in
      let (m2, xs2, run2, spent2, rest) =
        map_loop-Mapped n (write_pte pte (new_pte pa perm) m1) (a + page_size) (pa + page_size) xs1
          (omega arith) (omega arith) (omega arith) (omega arith) (omega arith) one.free
          one.directory
          (λ b lo hi.
            rw
              (one.entries b (omega arith)
                ∙ mapped_beyond a (a + page_size) pa perm b (entry m pgdir) lo)
              (absent b (omega arith) hi)) in
      (
        m2,
        xs2,
        map_loop-next (suc n) pgdir a last pa perm pte m m1 run nonnull np (omega arith)
              (omega arith) (omega arith)
            ∙ run2,
        Spent-trans xs xs1 xs2 1 (n + 1) (suc n + 1) spent spent2 (omega arith),
        record {
          free = rest.free;
          directory = rest.directory;
          entries = λ b lb.
              rest.entries b lb
              ∙ mapped-step a (last + page_size) pa perm b (entry m pgdir)
                  (entry (write_pte pte (new_pte pa perm) m1) pgdir) al (omega arith)
                  (one.entries b lb);
        },
      )

-- `mappages` of `n + 1` pages at a page's address, to a physical range at a page's address, both within
-- 32 bits, where no page of the range is mapped and more than `n` pages are free: it returns 0, takes
-- at most `n + 1` pages, and leaves the tables well-formed; the entries of the range are those of the
-- physical pages in order with the permissions and PTE_P, and all others are as before.
pub mappages-Mapped :
    (m : Kmem) (pgdir va n pa perm : ℕ) (xs : List ℕ)
    → va % page_size ≡ 0
    → va + suc n * page_size ≤ 2 ^ 32
    → pa % page_size ≡ 0
    → pa + suc n * page_size ≤ 2 ^ 32
    → perm < page_size
    → n < length xs
    → IsFree m xs
    → IsDirectory m pgdir xs
    → ((b : ℕ) → va ≤ b → b < va + suc n * page_size → present (entry m pgdir b) ≡ false)
    → (m' : Kmem) × (xs' : List ℕ) × (mappages pgdir va (suc n * page_size) pa perm m
        ≡ ok (pos 0, m'))
      × Spent xs xs' (n + 1)
      × Mapped m pgdir va (va + suc n * page_size) pa perm m' xs'
unfolding mappages
mappages-Mapped m pgdir va n pa perm xs al la ap lp lf room free dir absent =
    let first_eq : page_round_down va ≡ va = omega arith in
    let last_eq : page_round_down ((va + suc n * page_size + 2 ^ 32 - 1) % 2 ^ 32)
        ≡ va + n * page_size =
      omega arith in
    let rounds_eq : rounds va (va + n * page_size) ≡ suc n = omega arith in
    let stop_eq : va + suc n * page_size ≡ va + n * page_size + page_size = omega arith in
    rw first_eq (
      rw last_eq (
        rw rounds_eq (
          rw stop_eq (
            map_loop-Mapped pgdir perm (va + n * page_size) lf (omega arith) n m va pa xs refl al
              (omega arith) ap room free dir (λ b lo hi. absent b lo (omega arith))))))
