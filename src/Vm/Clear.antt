-- ===== src/Vm/Clear.antt =====
-- A page that `allocuvm` of vm.c takes off the free list and clears, before it is mapped.
use a.Base.{ℕ, ◌+◌, ◌*◌, ◌%◌, ◌<◌, ◌≡◌, ◌≢◌, arith, List, ◌∷◌}
use a.Kalloc.{Kmem, page_size}
use a.Kalloc.FreeList.{IsFree, IsPage, taken, taken-IsFree}
use a.Vm.{pdx, ptx, clear_page}
use a.Vm.Entries.{table_of, entry, entry-agree, IsDirectory, table_of-aligned, Chain-agree, All-zip}

-- A page `x` of the free list that is taken off it and cleared.
module _ (m : Kmem) (pgdir x : ℕ) (xs : List ℕ) (free : IsFree m (x ∷ xs))
    (dir : IsDirectory m pgdir (x ∷ xs)) where
  abbrev pub cleared : Kmem
  cleared = record (taken m x) { word = clear_page m.word x }

  cleared-word :
      (t j : ℕ)
      → t % page_size ≡ 0
      → x ≢ t
      → j < 1024
      → cleared.word (t + 4 * j) ≡ m.word (t + 4 * j)
  unfolding clear_page
  cleared-word t j at ne lt = let al = free.pages.0.aligned in ground arith

  cleared-free : (y : ℕ) → IsPage m.kernel_end y → y ≢ x → cleared.word y ≡ m.word y
  unfolding clear_page
  cleared-free y page ne = let al = free.pages.0.aligned in let ay = page.aligned in ground arith

  pub cleared-IsFree : IsFree cleared xs
  cleared-IsFree =
      let f = taken-IsFree m x xs free in
      record {
        chain =
            Chain-agree m.word cleared.word (m.word x) xs
              (All-zip (IsPage m.kernel_end) (λ y. y ≢ x) (λ y. cleared.word y ≡ m.word y) xs
                cleared-free f.pages free.distinct.0)
              f.chain;
        pages = f.pages;
        distinct = f.distinct;
        unlocked = f.unlocked;
      }

  pde-cleared : (i : ℕ) → i < 1024 → cleared.word (pgdir + 4 * i) ≡ m.word (pgdir + 4 * i)
  pde-cleared i lt = cleared-word pgdir i dir.aligned dir.used.0 lt

  pub cleared-IsDirectory : IsDirectory cleared pgdir xs
  cleared-IsDirectory = record {
    aligned = dir.aligned;
    used = dir.used.1;
    bounded = dir.bounded.1;
    apart = λ i lt. rw (pde-cleared i lt) (λ has. let h = dir.apart i lt has in (h.0, h.1, h.2.1));
    distinct =
        λ i j li lj ne. rw (pde-cleared i li) (rw (pde-cleared j lj) (dir.distinct i j li lj ne));
  }

  pub entry-cleared : (b : ℕ) → entry cleared pgdir b ≡ entry m pgdir b
  entry-cleared b = entry-agree m cleared pgdir b (pde-cleared (pdx b) (omega arith)) (λ has.
      cleared-word (table_of m pgdir (pdx b)) (ptx b) (table_of-aligned m pgdir (pdx b))
        (dir.apart (pdx b) (omega arith) has).2.0 (omega arith))
