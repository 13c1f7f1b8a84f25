-- ===== src/Vm/Grow.antt =====
-- `allocuvm` of vm.c where there are pages enough: the pages that the process gets.
use a.Base.{
  ℕ, zero, suc, ◌+◌, ◌*◌, ◌/◌, ◌%◌, ◌^◌, ◌≤◌, ◌<◌, ◌≡◌, refl, ◌∙◌, ◌≢◌, ◌⊎◌, inl, inr, true, false,
  ◌==◌, ltb, leb, arith, ok, pos, ◌>>=◌, List, [], ◌∷◌, Bool-cases, length,
}
use a.Kalloc.{Kmem, page_size, kern_base, v2p}
use a.Kalloc.FreeList.{IsFree, Fresh, kalloc-eq-taken}
use a.Vm.{pte_p, pte_w, pte_u, present}
use a.Kalloc.{page_round_up}
use a.Vm.Entries.{entry, IsDirectory}
use a.Vm.Round.{mapped}
use a.Vm.Map.{mappages-Mapped}
use a.Vm.{mappages}
use a.Vm.Space.{allocuvm_loop, allocuvm}
use a.Vm.Clear.{cleared, cleared-IsFree, cleared-IsDirectory, entry-cleared}

-- The page at `b` is mapped, writable and for the user, to a page that was on the free list `xs` and
-- is not on `xs'`.
pub record NewPage (m : Kmem) (pgdir b : ℕ) (xs xs' : List ℕ) : Type 0 where
  pub page : ℕ
  pub mapped_to : entry m pgdir b ≡ v2p page + (pte_p + pte_w + pte_u)
  pub gone : Fresh page xs'
  pub was_free : (v : ℕ) → Fresh v xs → page ≢ v

-- The pages of `[a, stop)` are new, and nothing else is mapped otherwise than before.
pub record Grown (m : Kmem) (pgdir a stop : ℕ) (xs : List ℕ) (m' : Kmem) (xs' : List ℕ)
    : Type 0 where
  pub free : IsFree m' xs'
  pub directory : IsDirectory m' pgdir xs'
  pub spent : (v : ℕ) → Fresh v xs → Fresh v xs'
  pub inside : (b : ℕ) → a ≤ b → b < stop → NewPage m' pgdir b xs xs'
  pub outside : (b : ℕ) → b < 2 ^ 32 → (b < a) ⊎ (stop ≤ b) → entry m' pgdir b ≡ entry m pgdir b

mapped_in :
    (a p b : ℕ) (old : ℕ → ℕ)
    → a % page_size ≡ 0
    → a ≤ b
    → b < a + page_size
    → mapped a (a + page_size) p (pte_w + pte_u) old b ≡ p + (pte_p + pte_w + pte_u)
mapped_in a p b old al lo hi = ground arith

mapped_out :
    (a stop p perm b : ℕ) (old : ℕ → ℕ) → (b < a) ⊎ (stop ≤ b) → mapped a stop p perm old b ≡ old b
mapped_out a stop p perm b old (inl lt) = ground arith
mapped_out a stop p perm b old (inr le) = ground arith

-- One page.
grow_page :
    (m : Kmem) (pgdir a x : ℕ) (xs : List ℕ)
    → a % page_size ≡ 0
    → a < kern_base
    → 0 < length xs
    → (free : IsFree m (x ∷ xs)) → (dir : IsDirectory m pgdir (x ∷ xs))
    → ((b : ℕ) → a ≤ b → b < a + page_size → present (entry m pgdir b) ≡ false)
    → (m' : Kmem) × (xs' : List ℕ) × (mappages pgdir a page_size
          (v2p x)
          (pte_w + pte_u)
          (cleared m pgdir x xs free dir)
        ≡ ok (pos 0, m'))
      × (length xs ≤ length xs' + 1)
      × Grown m pgdir a (a + page_size) (x ∷ xs) m' xs'
grow_page m pgdir a x xs al low room free dir absent =
    let low_x = dir.bounded.0 in
    let page = free.pages.0.aligned in
    let below = free.pages.0.below in
    let e = entry-cleared m pgdir x xs free dir in
    let (m', xs', run, spent, mp) =
      mappages-Mapped (cleared m pgdir x xs free dir) pgdir a 0 (v2p x) (pte_w + pte_u) xs al
        (omega arith) (omega arith) (omega arith) (omega arith) room
        (cleared-IsFree m pgdir x xs free dir) (cleared-IsDirectory m pgdir x xs free dir)
        (λ b lo hi. rw (e b) (absent b lo hi)) in
    (
      m',
      xs',
      run,
      spent.count,
      record {
        free = mp.free;
        directory = mp.directory;
        spent = λ v f. spent.fewer v f.1;
        inside = λ b lo hi. record {
          page = x;
          mapped_to =
              mp.entries b (omega arith)
              ∙ mapped_in a (v2p x) b (entry (cleared m pgdir x xs free dir) pgdir) al lo hi;
          gone = spent.fewer x free.distinct.0;
          was_free = λ v f. f.0;
        };
        outside = λ b lb out.
            mp.entries b lb
            ∙ mapped_out a (a + page_size) (v2p x) (pte_w + pte_u) b
                (entry (cleared m pgdir x xs free dir) pgdir) out
            ∙ e b;
      },
    )

Grown-trans :
    (m m1 m2 : Kmem) (pgdir a mid stop : ℕ) (xs xs1 xs2 : List ℕ)
    → a ≤ mid
    → mid ≤ stop
    → stop ≤ 2 ^ 32
    → Grown m pgdir a mid xs m1 xs1
    → Grown m1 pgdir mid stop xs1 m2 xs2
    → Grown m pgdir a stop xs m2 xs2
Grown-trans m m1 m2 pgdir a mid stop xs xs1 xs2 lo hi top g h = record {
  free = h.free;
  directory = h.directory;
  spent = λ v f. h.spent v (g.spent v f);
  inside = λ b l u. elim (Bool-cases (ltb b mid)) [
    | inl lt ↦
        let lt' : b < mid = ground arith in
        let p = g.inside b l lt' in
        record {
          page = p.page;
          mapped_to = h.outside b (omega arith) (inl lt') ∙ p.mapped_to;
          gone = h.spent p.page p.gone;
          was_free = p.was_free;
        }
    | inr ge ↦
        let ge' : mid ≤ b = ground arith in
        let p = h.inside b ge' u in
        record {
          page = p.page;
          mapped_to = p.mapped_to;
          gone = p.gone;
          was_free = λ v f. p.was_free v (g.spent v f);
        }
  ];
  outside = λ b lb out. elim out [
    | inl lt ↦ h.outside b lb (inl (omega arith)) ∙ g.outside b lb (inl lt)
    | inr ge ↦ h.outside b lb (inr ge) ∙ g.outside b lb (inr (omega arith))
  ];
}

module _ (pgdir oldsz newsz : ℕ) (low : newsz < kern_base) where
  -- A round of `allocuvm` that maps the page `x`.
  allocuvm_round :
      (k a x : ℕ) (m m' : Kmem) (xs : List ℕ)
      → (free : IsFree m (x ∷ xs)) → (dir : IsDirectory m pgdir (x ∷ xs)) → a < newsz
      → mappages pgdir a page_size (v2p x) (pte_w + pte_u) (cleared m pgdir x xs free dir)
        ≡ ok (pos 0, m')
      → allocuvm_loop (suc k) pgdir a oldsz newsz m
        ≡ allocuvm_loop k pgdir (a + page_size) oldsz newsz m'
  unfolding allocuvm_loop
  allocuvm_round k a x m m' xs free dir lt run =
      let go : ltb a newsz ≡ true = ground arith in
      let nonzero : (x == 0) ≡ false = (let h = free.chain.1 in ground arith) in
      rw (go, allocuvm_loop) (rw (kalloc-eq-taken m x xs free) (rw (nonzero, ◌>>=◌) (rw run refl)))

  allocuvm_loop-Grown :
      (n k a : ℕ) (m : Kmem) (xs : List ℕ)
      → n < k
      → a % page_size ≡ 0
      → newsz ≤ a + n * page_size
      → a + n * page_size < newsz + page_size
      → n + n ≤ length xs
      → IsFree m xs
      → IsDirectory m pgdir xs
      → ((b : ℕ) → a ≤ b → b < a + n * page_size → present (entry m pgdir b) ≡ false)
      → (m' : Kmem) × (xs' : List ℕ) × (allocuvm_loop k pgdir a oldsz newsz m ≡ ok (newsz, m'))
        × Grown m pgdir a (a + n * page_size) xs m' xs'
  unfolding allocuvm_loop
  allocuvm_loop-Grown n zero a m xs fuel al ge lt room free dir absent = absurd (omega arith)
  allocuvm_loop-Grown zero (suc k) a m xs fuel al ge lt room free dir absent =
      let stop : ltb a newsz ≡ false = ground arith in
      (
        m,
        xs,
        rw (stop, allocuvm_loop) refl,
        record {
          free = free;
          directory = dir;
          spent = λ v f. f;
          inside = λ b l u. absurd (omega arith);
          outside = λ b lb out. refl;
        },
      )
  allocuvm_loop-Grown (suc n) (suc k) a m [] fuel al ge lt room free dir absent =
      absurd (omega arith)
  allocuvm_loop-Grown (suc n) (suc k) a m (x ∷ xs) fuel al ge lt room free dir absent =
      let (m1, xs1, run1, count, one) =
        grow_page m pgdir a x xs al (omega arith) (omega arith) free dir
          (λ b lo hi. absent b lo (omega arith)) in
      let (m2, xs2, run2, rest) =
        allocuvm_loop-Grown n k (a + page_size) m1 xs1 (omega arith) (omega arith) (omega arith)
          (omega arith) (omega arith) one.free one.directory
          (λ b lo hi.
            rw (one.outside b (omega arith) (inr lo)) (absent b (omega arith) (omega arith))) in
      let e : a + suc n * page_size ≡ a + page_size + n * page_size = omega arith in
      (
        m2,
        xs2,
        allocuvm_round k a x m m1 xs free dir (omega arith) run1 ∙ run2,
        rw e (
            Grown-trans m m1 m2 pgdir a (a + page_size) (a + page_size + n * page_size) (x ∷ xs) xs1
              xs2 (omega arith) (omega arith) (omega arith) one rest),
      )

-- `allocuvm` from `oldsz` to a `newsz` below KERNBASE, `n` pages more, none of them mapped (the
-- page that an unaligned `oldsz` ends in may be), with two free pages for each: it returns `newsz`
-- and leaves the tables well-formed; every page of the new part is mapped, writable and for the
-- user, to a page that was free and no longer is, and every other entry is as before.
pub allocuvm-Grown :
    (m : Kmem) (pgdir oldsz newsz n : ℕ) (xs : List ℕ)
    → newsz < kern_base
    → oldsz ≤ newsz
    → page_round_up newsz ≡ page_round_up oldsz + n * page_size
    → n + n ≤ length xs
    → IsFree m xs
    → IsDirectory m pgdir xs
    → ((b : ℕ)
        → page_round_up oldsz ≤ b
        → b < page_round_up newsz
        → present (entry m pgdir b) ≡ false)
    → (m' : Kmem) × (xs' : List ℕ) × (allocuvm pgdir oldsz newsz m ≡ ok (newsz, m'))
      × Grown m pgdir (page_round_up oldsz) (page_round_up newsz) xs m' xs'
unfolding allocuvm
allocuvm-Grown m pgdir oldsz newsz n xs low le size room free dir absent =
    let small : leb kern_base newsz ≡ false = ground arith in
    let grows : ltb newsz oldsz ≡ false = ground arith in
    rw small (
      rw grows (
        rw size (
          allocuvm_loop-Grown pgdir oldsz newsz low n (newsz / page_size + 2) (page_round_up oldsz)
            m xs (omega arith) (omega arith) (omega arith) (omega arith) room free dir
            (λ b lo hi. absent b lo (omega arith)))))
