-- ===== src/Bio/Blocks.antt =====
-- bio.c: which buffers are those of which blocks.
use a.Base.{
  ℕ, suc, ◌+◌, ◌%◌, ◌^◌, ◌≡◌, refl, sym, ◌∙◌, ◌≢◌, ◌⊎◌, inl, inr, Bool, true, false, ◌&&◌, not,
  Option, none, some, List, [], ◌∷◌, arith, ◌==◌, ==_iff, Bool-cases, get_elem?, modify, All,
  Outcome, ok, panic, fault, subst, some-injective, get_elem?-modify_self, get_elem?-modify_ne,
  get_elem?-All,
}
use a.Bio.{
  Buf, Bcache, set_buf, acquire, release, cached_loop, unused_loop, Bget, got, waits, acquiresleep,
  bget,
}

-- The buffer is that of the block.
abbrev pub IsOf : ℕ → ℕ → Buf → Type 0
IsOf dev blockno b = (b.dev ≡ dev) × (b.blockno ≡ blockno)

-- No two buffers are those of one block. Device 0, which no block is on, is that of buffers never used.
abbrev pub IsBcache : List Buf → Type 0
IsBcache bs =
    (i j : ℕ) (a b : Buf)
    → get_elem? bs i ≡ some a
    → get_elem? bs j ≡ some b
    → a.dev ≢ 0
    → IsOf a.dev a.blockno b
    → i ≡ j

CachedOk : ℕ → ℕ → List Buf → ℕ → Option ℕ → Type 0
CachedOk dev blockno bs i none = All (λ b. IsOf dev blockno b → ⊥) bs
CachedOk dev blockno bs i (some j) =
    (m : ℕ) × (b : Buf) × (j ≡ i + m) × (get_elem? bs m ≡ some b) × IsOf dev blockno b

cached_loop-CachedOk :
    (dev blockno : ℕ) (bs : List Buf) (i : ℕ)
    → CachedOk dev blockno bs i (cached_loop dev blockno bs i)
unfolding cached_loop CachedOk
cached_loop-CachedOk dev blockno [] i = tt
cached_loop-CachedOk dev blockno (b ∷ bs) i =
    elim (Bool-cases (b.dev == dev && b.blockno == blockno)) [
      | inl t ↦ rw t (0, b, omega arith, refl, (ground arith, ground arith))
      | inr t ↦
          rw t (
            go (cached_loop dev blockno bs (i + 1)) (cached_loop-CachedOk dev blockno bs (i + 1)) t)
    ]
  where
    go :
        (r : Option ℕ)
        → CachedOk dev blockno bs (i + 1) r
        → (b.dev == dev && b.blockno == blockno) ≡ false
        → CachedOk dev blockno (b ∷ bs) i r
    go none all t = ((λ h. ground arith), all)
    go (some j) (m, x, e, at, h) t = (suc m, x, omega arith, at, h)

UnusedOk : List Buf → ℕ → Option ℕ → Type 0
UnusedOk bs i none = All (λ b. (b.refcnt ≢ 0) ⊎ (b.dirty ≡ true)) bs
UnusedOk bs i (some j) =
    (m : ℕ) × (b : Buf) × (j ≡ i + m)
    × (get_elem? bs m ≡ some b)
    × (b.refcnt ≡ 0)
    × (b.dirty ≡ false)

in_use : (b : Buf) → (b.refcnt == 0 && not b.dirty) ≡ false → (b.refcnt ≢ 0) ⊎ (b.dirty ≡ true)
in_use b t = elim (Bool-cases b.dirty) [ inl d ↦ inr d | inr d ↦ inl (ground arith) ]

unused_loop-UnusedOk : (bs : List Buf) (i : ℕ) → UnusedOk bs i (unused_loop bs i)
unfolding unused_loop UnusedOk
unused_loop-UnusedOk [] i = tt
unused_loop-UnusedOk (b ∷ bs) i = go (unused_loop bs (i + 1)) refl (unused_loop-UnusedOk bs (i + 1))
  where
    go :
        (r : Option ℕ)
        → unused_loop bs (i + 1) ≡ r
        → UnusedOk bs (i + 1) r
        → UnusedOk (b ∷ bs) i (unused_loop (b ∷ bs) i)
    go (some j) e (m, x, q, at, z, d) = rw e (suc m, x, omega arith, at, z, d)
    go none e all = elim (Bool-cases (b.refcnt == 0 && not b.dirty)) [
      | inl t ↦ rw (e, t) (0, b, omega arith, refl, ground arith, ground arith)
      | inr t ↦ rw (e, t) (in_use b t, all)
    ]

-- A change of one buffer, to one whose block no other buffer has.
modify-IsBcache :
    (bs : List Buf) (i : ℕ) (b : Buf) (f : Buf → Buf)
    → IsBcache bs
    → get_elem? bs i ≡ some b
    → ((j : ℕ) (a : Buf)
        → i ≢ j
        → get_elem? bs j ≡ some a
        → (f b).dev ≢ 0
        → IsOf (f b).dev (f b).blockno a
        → ⊥)
    → IsBcache (modify bs i f)
modify-IsBcache bs i b f c at alone = go
  where
    here : (x : Buf) → get_elem? (modify bs i f) i ≡ some x → f b ≡ x
    here x g = some-injective _ _ (sym (get_elem?-modify_self bs i f at) ∙ g)

    first :
        (k : ℕ) (x y : Buf)
        → get_elem? (modify bs i f) i ≡ some x
        → get_elem? (modify bs i f) k ≡ some y
        → x.dev ≢ 0
        → IsOf x.dev x.blockno y
        → i ≡ k
    first k x y g h used same = elim (Bool-cases (i == k)) [
      | inl t ↦ (==_iff i k).0 t
      | inr t ↦
          let ne : i ≢ k = ground arith in
          let same' = subst (λ z. IsOf z.dev z.blockno y) (sym (here x g)) same in
          let used' = subst (λ z. z.dev ≢ 0) (sym (here x g)) used in
          absurd (alone k y ne (sym (get_elem?-modify_ne bs i k f ne) ∙ h) used' same')
    ]

    go : IsBcache (modify bs i f)
    go j k x y g h used same = elim (Bool-cases (j == i)) [
      | inl t ↦
          let q = (==_iff j i).0 t in
          let g' = subst (λ z. get_elem? (modify bs i f) z ≡ some x) q g in
          q ∙ first k x y g' h used same
      | inr t ↦ elim (Bool-cases (k == i)) [
        | inl u ↦
            let q = (==_iff k i).0 u in
            let h' = subst (λ z. get_elem? (modify bs i f) z ≡ some y) q h in
            let (d, n) = same in
            let used' : y.dev ≢ 0 = λ z. used (sym d ∙ z) in
            let ne : i ≢ j = ground arith in sym (q ∙ first j y x h' g used' (sym d, sym n))
        | inr u ↦
            let ne : i ≢ j = ground arith in
            let ne' : i ≢ k = ground arith in
            c j k x y (sym (get_elem?-modify_ne bs i j f ne) ∙ g)
              (sym (get_elem?-modify_ne bs i k f ne') ∙ h) used same
      ]
    ]

-- `k'` differs from `k` in the buffer at place `i`, which is now that of the block. `was` and `now` say whether
-- the buffer's sleep lock is held before and after.
pub record Enters (dev blockno : ℕ) (k : Bcache) (i : ℕ) (k' : Bcache) (was now : Bool)
    : Type 0 where
  pub old : Buf
  pub new : Buf
  pub before : get_elem? k.buf i ≡ some old
  pub after : get_elem? k'.buf i ≡ some new
  pub is_of : IsOf dev blockno new
  pub counted : new.refcnt ≡ (old.refcnt + 1) % 2 ^ 32
  pub kept :
      (IsOf dev blockno old × (new.valid ≡ old.valid) × (new.dirty ≡ old.dirty))
      ⊎ (All (λ b. IsOf dev blockno b → ⊥) k.buf
          × (old.refcnt ≡ 0)
          × (old.dirty ≡ false)
          × (new.valid ≡ false)
          × (new.dirty ≡ false))
  pub same_id : new.id ≡ old.id
  pub lock_before : old.locked ≡ was
  pub lock_after : new.locked ≡ now
  pub others : (j : ℕ) → i ≢ j → get_elem? k'.buf j ≡ get_elem? k.buf j
  pub cache : IsBcache k'.buf
  pub unlocked : k'.lock ≡ false

-- What `bget` does: it takes the free lock of the block's buffer, or waits for the lock that another process
-- holds, or panics.
pub BgetOk : ℕ → ℕ → Bcache → Outcome Bget → Type 0
BgetOk dev blockno k (ok (got i k')) = Enters dev blockno k i k' false true
BgetOk dev blockno k (ok (waits i k')) = Enters dev blockno k i k' true true
BgetOk dev blockno k panic =
    All (λ b. IsOf dev blockno b → ⊥) k.buf × All (λ b. (b.refcnt ≢ 0) ⊎ (b.dirty ≡ true)) k.buf
BgetOk dev blockno k fault = ⊥

acquiresleep-BgetOk :
    (dev blockno : ℕ) (k : Bcache) (i : ℕ) (k' : Bcache) (was : Bool)
    → Enters dev blockno k i k' was was
    → BgetOk dev blockno k (acquiresleep i k')
unfolding acquiresleep BgetOk
acquiresleep-BgetOk dev blockno k i k' was e = elim (Bool-cases e.new.locked) [
  | inl t ↦
      let r : acquiresleep i k' ≡ ok (waits i k') = rw (acquiresleep, e.after, t) refl in
      subst (BgetOk dev blockno k) (sym r) (record {
        old = e.old;
        new = e.new;
        before = e.before;
        after = e.after;
        is_of = e.is_of;
        counted = e.counted;
        kept = e.kept;
        same_id = e.same_id;
        lock_before = e.lock_before ∙ sym e.lock_after ∙ t;
        lock_after = t;
        others = e.others;
        cache = e.cache;
        unlocked = e.unlocked;
      })
  | inr t ↦
      let lock = λ (b : Buf). record b { locked = true } in
      let r : acquiresleep i k' ≡ ok (got i (set_buf i lock k')) =
        rw (acquiresleep, e.after, t) refl in
      subst (BgetOk dev blockno k) (sym r) (record {
        old = e.old;
        new = lock e.new;
        before = e.before;
        after = get_elem?-modify_self k'.buf i lock e.after;
        is_of = e.is_of;
        counted = e.counted;
        kept = e.kept;
        same_id = e.same_id;
        lock_before = e.lock_before ∙ sym e.lock_after ∙ t;
        lock_after = refl;
        others = λ j ne. get_elem?-modify_ne k'.buf i j lock ne ∙ e.others j ne;
        cache =
            modify-IsBcache k'.buf i e.new lock e.cache e.after
              (λ j a ne g used same. ne (e.cache i j e.new a e.after g used same));
        unlocked = e.unlocked;
      })
]

module _ (dev blockno : ℕ) (k : Bcache) (real : dev ≢ 0) (c : IsBcache k.buf)
    (u : k.lock ≡ false) where
  bget_found :
      (r : Option ℕ) (q : Option ℕ)
      → cached_loop dev blockno k.buf 0 ≡ r
      → CachedOk dev blockno k.buf 0 r
      → unused_loop k.buf 0 ≡ q
      → UnusedOk k.buf 0 q
      → BgetOk dev blockno k (bget dev blockno k)
  unfolding CachedOk UnusedOk BgetOk bget acquire release
  bget_found (some i) q e (m, b, z, at, same) f unused =
      let up = λ (b : Buf). record b { refcnt = (b.refcnt + 1) % 2 ^ 32 } in
      let k' : Bcache = record k { buf = modify k.buf i up } in
      let y : i ≡ m = omega (arith, z) in
      let at' = subst (λ x. get_elem? k.buf x ≡ some b) (sym y) at in
      let r : bget dev blockno k ≡ acquiresleep i k' = ground arith in
      subst (BgetOk dev blockno k) (sym r) (
        acquiresleep-BgetOk dev blockno k i k' b.locked (record {
          old = b;
          new = up b;
          before = at';
          after = get_elem?-modify_self k.buf i up at';
          is_of = same;
          counted = refl;
          kept = inl (same, refl, refl);
          same_id = refl;
          lock_before = refl;
          lock_after = refl;
          others = λ j ne. get_elem?-modify_ne k.buf i j up ne;
          cache =
              modify-IsBcache k.buf i b up c at' (λ j a ne g used of. ne (c i j b a at' g used of));
          unlocked = u;
        }))
  bget_found none none e all f unused =
      let r : bget dev blockno k ≡ panic = ground arith in
      subst (BgetOk dev blockno k) (sym r) (all, unused)
  bget_found none (some i) e all f (m, b, z, at, idle, clean) =
      let new = λ (b : Buf). record b {
        dev = dev;
        blockno = blockno;
        valid = false;
        dirty = false;
        refcnt = 1;
      } in
      let k' : Bcache = record k { buf = modify k.buf i new } in
      let y : i ≡ m = omega (arith, z) in
      let at' = subst (λ x. get_elem? k.buf x ≡ some b) (sym y) at in
      let r : bget dev blockno k ≡ acquiresleep i k' = ground arith in
      subst (BgetOk dev blockno k) (sym r) (
        acquiresleep-BgetOk dev blockno k i k' b.locked (record {
          old = b;
          new = new b;
          before = at';
          after = get_elem?-modify_self k.buf i new at';
          is_of = (refl, refl);
          counted = omega (arith, idle);
          kept = inr (all, idle, clean, refl, refl);
          same_id = refl;
          lock_before = refl;
          lock_after = refl;
          others = λ j ne. get_elem?-modify_ne k.buf i j new ne;
          cache =
              modify-IsBcache k.buf i b new c at'
                (λ j a ne g used of. get_elem?-All (λ b. IsOf dev blockno b → ⊥) k.buf j all g of);
          unlocked = u;
        }))

  -- In a cache where no two buffers are those of one block, `bget` gives the buffer of the block,
  -- valid and dirty as it was, or, only if no buffer is that of the block, a clean one without
  -- references, to be read anew. It takes the buffer's sleep lock if that is free, and otherwise
  -- waits for it. The buffer's references are one more, no other buffer changes, and the cache is
  -- such a cache again. It panics only if no buffer is that of the block, and all are referred to
  -- or dirty.
  pub bget-BgetOk : BgetOk dev blockno k (bget dev blockno k)
  bget-BgetOk =
      bget_found (cached_loop dev blockno k.buf 0) (unused_loop k.buf 0) refl
        (cached_loop-CachedOk dev blockno k.buf 0) refl (unused_loop-UnusedOk k.buf 0)
