-- ===== src/Kalloc/FreeList.antt =====
-- What `kalloc` and `kfree` of kalloc.c do to the list of free pages.
use a.Base.{ℕ, ◌%◌, ◌≤◌, ◌<◌, ◌≡◌, refl, ◌≢◌, false, List, [], ◌∷◌, arith, ok, All}
use a.Kalloc.{Kmem, page_size, phys_stop, v2p, kfree, kalloc, fill, store}

-- What `kfree` demands of an address.
pub record IsPage (kernel_end v : ℕ) : Type 0 where
  pub aligned : v % page_size ≡ 0
  pub above : kernel_end ≤ v
  pub below : v2p v < phys_stop

-- From `p` the `next` pointers lead through the pages `xs` to null.
abbrev pub Chain : (ℕ → ℕ) → ℕ → List ℕ → Type 0
Chain word p [] = p ≡ 0
Chain word p (x ∷ xs) = (p ≡ x) × (x ≢ 0) × Chain word (word x) xs

abbrev pub Fresh : ℕ → List ℕ → Type 0
Fresh v xs = All (λ x. x ≢ v) xs

abbrev pub Distinct : List ℕ → Type 0
Distinct [] = Unit
Distinct (x ∷ xs) = Fresh x xs × Distinct xs

-- The free pages of `m` are `xs`, the next to be handed out first: distinct pages, linked through
-- their first words, and the lock is free.
pub record IsFree (m : Kmem) (xs : List ℕ) : Type 0 where
  pub chain : Chain m.word m.freelist xs
  pub pages : All (IsPage m.kernel_end) xs
  pub distinct : Distinct xs
  pub unlocked : m.lock ≡ false

store-fill_ne :
    (word : ℕ → ℕ) (v next x : ℕ)
    → v % page_size ≡ 0
    → x % page_size ≡ 0
    → x ≢ v
    → store (fill word v) v next x ≡ word x
unfolding store fill
store-fill_ne word v next x a b ne = ground arith

store_self : (word : ℕ → ℕ) (p x : ℕ) → store word p x p ≡ x
unfolding store
store_self word p x = ground arith

-- Writing a page leaves a chain of other pages as it is.
Chain-write :
    (word : ℕ → ℕ) (v next e p : ℕ) (xs : List ℕ)
    → v % page_size ≡ 0
    → All (IsPage e) xs
    → Fresh v xs
    → Chain word p xs
    → Chain (store (fill word v) v next) p xs
Chain-write word v next e p [] a ps f c = c
Chain-write word v next e p (x ∷ xs) a ps f c = (
  c.0,
  c.1,
  rw (store-fill_ne word v next x a ps.0.aligned f.0)
      (Chain-write word v next e (word x) xs a ps.1 f.1 c.2),
)

-- the state after `kfree v`
abbrev pub freed : Kmem → ℕ → Kmem
freed m v = record m { word = store (fill m.word v) v m.freelist; freelist = v }

module _ (m : Kmem) (xs : List ℕ) (free : IsFree m xs) where
  pub kfree-eq-freed : (v : ℕ) → IsPage m.kernel_end v → kfree v m ≡ ok (freed m v)
  unfolding kfree
  kfree-eq-freed v pg =
      let al = pg.aligned in
      let ab = pg.above in let be = pg.below in let un = free.unlocked in ground arith

  pub freed-IsFree :
      (v : ℕ) → IsPage m.kernel_end v → Fresh v xs → v ≢ 0 → IsFree (freed m v) (v ∷ xs)
  freed-IsFree v pg f nz = record {
    chain = (
      refl,
      nz,
      rw (store_self (fill m.word v) v m.freelist) (
          Chain-write m.word v m.freelist m.kernel_end m.freelist xs pg.aligned free.pages f
            free.chain),
    );
    pages = (pg, free.pages);
    distinct = (f, free.distinct);
    unlocked = free.unlocked;
  }

  -- `kfree` of a page that is not on the list puts it in front of the list; it neither panics nor
  -- leaves the lock held.
  pub kfree-IsFree :
      (v : ℕ)
      → IsPage m.kernel_end v
      → Fresh v xs
      → v ≢ 0
      → (m' : Kmem) × (kfree v m ≡ ok m') × IsFree m' (v ∷ xs)
  kfree-IsFree v pg f nz = (freed m v, kfree-eq-freed v pg, freed-IsFree v pg f nz)

-- the state after `kalloc` hands out `x`
abbrev pub taken : Kmem → ℕ → Kmem
taken m x = record m { freelist = m.word x }

module _ (m : Kmem) (x : ℕ) (xs : List ℕ) (free : IsFree m (x ∷ xs)) where
  pub kalloc-eq-taken : kalloc m ≡ ok (x, taken m x)
  unfolding kalloc
  kalloc-eq-taken =
      let c0 = free.chain.0 in let c1 = free.chain.1 in let un = free.unlocked in ground arith

  pub taken-IsFree : IsFree (taken m x) xs
  taken-IsFree = record {
    chain = free.chain.2;
    pages = free.pages.1;
    distinct = free.distinct.1;
    unlocked = free.unlocked;
  }

  -- `kalloc` hands out the first page of the list, which is then no longer on it.
  pub kalloc-cons :
      (m' : Kmem) × (kalloc m ≡ ok (x, m')) × IsFree m' xs × Fresh x xs × IsPage m.kernel_end x
  kalloc-cons = (taken m x, kalloc-eq-taken, taken-IsFree, free.distinct.0, free.pages.0)

-- With no free page `kalloc` returns null and changes nothing.
pub kalloc-nil : (m : Kmem) → IsFree m [] → kalloc m ≡ ok (0, m)
unfolding kalloc
kalloc-nil m free = let c = free.chain in let un = free.unlocked in ground arith
