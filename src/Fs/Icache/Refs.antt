-- ===== src/Fs/Icache/Refs.antt =====
-- The inode cache of fs.c: what iget finds in it.
use a.Base.{
  ℕ, suc, ◌+◌, ◌<◌, ◌≡◌, refl, sym, ◌∙◌, ◌≢◌, ◌⊎◌, inl, inr, false, ◌&&◌, Option, none, some, List,
  [], ◌∷◌, arith, ltb, ◌==◌, ==_iff, Bool-cases, get_elem?, modify, All, Outcome, ok, panic, subst,
  some-injective, get_elem?-modify_self, get_elem?-modify_ne, get_elem?-All,
}
use a.Fs.{Inode, Fs}
use a.Fs.Icache.{acquire, release, Found, cached, recycle, remember, find_loop, iget}

-- The entry holds this inode.
abbrev pub Holds : ℕ → ℕ → Inode → Type 0
Holds dev inum n = (0 < n.ref) × (n.dev ≡ dev) × (n.inum ≡ inum)

-- No two entries hold the same inode.
abbrev pub IsCache : List Inode → Type 0
IsCache ns =
    (i j : ℕ) (n m : Inode)
    → get_elem? ns i ≡ some n
    → get_elem? ns j ≡ some m
    → 0 < n.ref
    → Holds n.dev n.inum m
    → i ≡ j

abbrev FoundOk : ℕ → ℕ → List Inode → ℕ → Option ℕ → Found → Type 0
FoundOk dev inum ns i empty (cached j) =
    (m : ℕ) × (n : Inode) × (j ≡ i + m) × (get_elem? ns m ≡ some n) × Holds dev inum n
FoundOk dev inum ns i empty (recycle none) =
    All (λ n. Holds dev inum n → ⊥) ns × (empty ≡ none) × All (λ n. 0 < n.ref) ns
FoundOk dev inum ns i empty (recycle (some j)) =
    All (λ n. Holds dev inum n → ⊥) ns
    × ((empty ≡ some j)
        ⊎ ((m : ℕ) × (n : Inode) × (j ≡ i + m) × (get_elem? ns m ≡ some n) × (n.ref ≡ 0)))

FoundOk-cons :
    (dev inum : ℕ) (n : Inode) (ns : List Inode) (i : ℕ) (empty : Option ℕ) (r : Found)
    → (ltb 0 n.ref && n.dev == dev && n.inum == inum) ≡ false
    → FoundOk dev inum ns (i + 1) (remember empty i n) r
    → FoundOk dev inum (n ∷ ns) i empty r
FoundOk-cons dev inum n ns i empty (cached j) e (m, x, q, at, h) =
    (suc m, x, omega (arith, q), at, h)
FoundOk-cons dev inum n ns i none (recycle none) e (all, q, live) = elim (Bool-cases (n.ref == 0)) [
  | inl t ↦ absurd (ground arith)
  | inr t ↦ (((λ h. let (a, b, c) = h in ground arith), all), refl, (ground arith, live))
]
FoundOk-cons dev inum n ns i (some k) (recycle none) e (all, q, live) = absurd (cc)
FoundOk-cons dev inum n ns i (some k) (recycle (some j)) e (all, inl q) =
    (((λ h. let (a, b, c) = h in ground arith), all), inl q)
FoundOk-cons dev inum n ns i none (recycle (some j)) e (all, inl q) =
    elim (Bool-cases (n.ref == 0)) [
      | inl t ↦ (
        ((λ h. let (a, b, c) = h in ground arith), all),
        inr (0, n, ground arith, refl, (==_iff n.ref 0).0 t),
      )
      | inr t ↦ absurd (ground arith)
    ]
FoundOk-cons dev inum n ns i empty (recycle (some j)) e (all, inr (m, x, q, at, z)) =
    (((λ h. let (a, b, c) = h in ground arith), all), inr (suc m, x, omega (arith, q), at, z))

find_loop-FoundOk :
    (dev inum : ℕ) (ns : List Inode) (i : ℕ) (empty : Option ℕ)
    → FoundOk dev inum ns i empty (find_loop dev inum ns i empty)
unfolding find_loop
find_loop-FoundOk dev inum [] i none = (tt, refl, tt)
find_loop-FoundOk dev inum [] i (some k) = (tt, inl refl)
find_loop-FoundOk dev inum (n ∷ ns) i empty =
    elim (Bool-cases (ltb 0 n.ref && n.dev == dev && n.inum == inum)) [
      | inl t ↦ rw t (0, n, omega arith, refl, (ground arith, ground arith, ground arith))
      | inr t ↦ rw t (
          FoundOk-cons dev inum n ns i empty (find_loop dev inum ns (i + 1) (remember empty i n)) t
            (find_loop-FoundOk dev inum ns (i + 1) (remember empty i n)))
    ]

-- What `iget` may give: an entry that holds the inode, with one more reference than before; or a panic
-- with every entry in use by another inode.
abbrev pub Gets : ℕ → ℕ → Fs → Outcome (ℕ × Fs) → Type 0
Gets dev inum fs r =
    ((i : ℕ) × (n : Inode) × (n' : Inode) × (fs' : Fs) × (r ≡ ok (i, fs'))
      × (get_elem? fs.inode i ≡ some n)
      × (get_elem? fs'.inode i ≡ some n')
      × Holds dev inum n'
      × (n'.ref ≡ n.ref + 1)
      × (Holds dev inum n ⊎ ((n.ref ≡ 0) × (n'.valid ≡ false)))
      × ((j : ℕ) → i ≢ j → get_elem? fs'.inode j ≡ get_elem? fs.inode j)
      × IsCache fs'.inode
      × (fs'.icache_lock ≡ false))
    ⊎ ((r ≡ panic) × All (λ n. 0 < n.ref) fs.inode × All (λ n. Holds dev inum n → ⊥) fs.inode)

-- A change of one entry, to one whose inode no other entry holds.
modify-IsCache :
    (ns : List Inode) (i : ℕ) (n : Inode) (f : Inode → Inode)
    → IsCache ns
    → get_elem? ns i ≡ some n
    → ((j : ℕ) (m : Inode) → i ≢ j → get_elem? ns j ≡ some m → Holds (f n).dev (f n).inum m → ⊥)
    → IsCache (modify ns i f)
modify-IsCache ns i n f c at alone = go
  where
    here : (x : Inode) → get_elem? (modify ns i f) i ≡ some x → f n ≡ x
    here x g = some-injective _ _ (sym (get_elem?-modify_self ns i f at) ∙ g)

    there :
        (j : ℕ) (x : Inode) → i ≢ j → get_elem? (modify ns i f) j ≡ some x → get_elem? ns j ≡ some x
    there j x ne g = sym (get_elem?-modify_ne ns i j f ne) ∙ g

    first :
        (b : ℕ) (x y : Inode)
        → get_elem? (modify ns i f) i ≡ some x
        → get_elem? (modify ns i f) b ≡ some y
        → Holds x.dev x.inum y
        → i ≡ b
    first b x y g h hold = elim (Bool-cases (i == b)) [
      | inl t ↦ (==_iff i b).0 t
      | inr t ↦
          let ne : i ≢ b = ground arith in
          let hold' = subst (λ z. Holds z.dev z.inum y) (sym (here x g)) hold in
          absurd (alone b y ne (there b y ne h) hold')
    ]

    go :
        (a b : ℕ) (x y : Inode)
        → get_elem? (modify ns i f) a ≡ some x
        → get_elem? (modify ns i f) b ≡ some y
        → 0 < x.ref
        → Holds x.dev x.inum y
        → a ≡ b
    go a b x y g h live hold = elim (Bool-cases (a == i)) [
      | inl t ↦
          let q = (==_iff a i).0 t in
          let g' = subst (λ z. get_elem? (modify ns i f) z ≡ some x) q g in
          q ∙ first b x y g' h hold
      | inr t ↦ elim (Bool-cases (b == i)) [
        | inl u ↦
            let q = (==_iff b i).0 u in
            let h' = subst (λ z. get_elem? (modify ns i f) z ≡ some y) q h in
            let (p, d, m) = hold in
            let ne : i ≢ a = ground arith in sym (q ∙ first a y x h' g (live, sym d, sym m))
        | inr u ↦
            let ne : i ≢ a = ground arith in
            let ne' : i ≢ b = ground arith in c a b x y (there a x ne g) (there b y ne' h) live hold
      ]
    ]

module _ (dev inum : ℕ) (fs : Fs) (c : IsCache fs.inode) (u : fs.icache_lock ≡ false) where
  iget_found :
      (r : Found)
      → find_loop dev inum fs.inode 0 none ≡ r
      → FoundOk dev inum fs.inode 0 none r
      → Gets dev inum fs (iget dev inum fs)
  unfolding iget acquire release
  iget_found (cached i) e (m, n, q, at, h) =
      let up = λ (n : Inode). record n { ref = n.ref + 1 } in
      let z : i ≡ m = omega (arith, q) in
      let at' = subst (λ x. get_elem? fs.inode x ≡ some n) (sym z) at in
      let (p, d, w) = h in
      inl (
        i,
        n,
        up n,
        record fs { inode = modify fs.inode i up },
        ground arith,
        at',
        get_elem?-modify_self fs.inode i up at',
        (omega arith, d, w),
        refl,
        inl h,
        (λ j ne. get_elem?-modify_ne fs.inode i j up ne),
        modify-IsCache fs.inode i n up c at' (λ j m ne g hold. ne (c i j n m at' g p hold)),
        u,
      )
  iget_found (recycle none) e (all, q, live) = inr (ground arith, live, all)
  iget_found (recycle (some i)) e (all, inl q) = absurd (cc)
  iget_found (recycle (some i)) e (all, inr (m, n, q, at, z)) =
      let new = λ (n : Inode). record n { dev = dev; inum = inum; ref = 1; valid = false } in
      let y : i ≡ m = omega (arith, q) in
      let at' = subst (λ x. get_elem? fs.inode x ≡ some n) (sym y) at in
      inl (
        i,
        n,
        new n,
        record fs { inode = modify fs.inode i new },
        ground arith,
        at',
        get_elem?-modify_self fs.inode i new at',
        (omega arith, refl, refl),
        omega arith,
        inr (z, refl),
        (λ j ne. get_elem?-modify_ne fs.inode i j new ne),
        modify-IsCache fs.inode i n new c at'
            (λ j m ne g hold. get_elem?-All (λ n. Holds dev inum n → ⊥) fs.inode j all g hold),
        u,
      )

  -- In a cache where no two entries hold one inode, `iget` gives the entry that holds the inode, or
  -- else one without references, to be read anew; it has one reference more, no other entry has
  -- changed, and the cache is such a cache again. It panics only if all entries are in use.
  pub iget-Gets : Gets dev inum fs (iget dev inum fs)
  iget-Gets =
      iget_found (find_loop dev inum fs.inode 0 none) refl
        (find_loop-FoundOk dev inum fs.inode 0 none)
