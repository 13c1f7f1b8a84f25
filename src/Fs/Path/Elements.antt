-- ===== src/Fs/Path/Elements.antt =====
-- skipelem of fs.c, and the elements of a path.
use a.Base.{
  ℕ, zero, suc, ◌+◌, ◌≤◌, ◌<◌, min, ◌≡◌, refl, sym, ap, ◌∙◌, fun_ext, inl, inr, Bool, true, false,
  Option, none, some, List, [], ◌∷◌, ◌++◌, arith, leb, ◌==◌, if◌then◌else◌, Bool-cases, length,
  get_elem?, take, drop, subst, get_or, length-take, Outcome,
}
use a.Fs.{Fs}
use a.Fs.Path.{
  slash, skip_slashes, span_element, copy_name, skipelem, walk, descend, arrive, Found, dirsiz,
}
use a.Fs.Content.{Devsw}

-- A list of words with a word before it, if that is not empty.
abbrev pub push : List ℕ → List (List ℕ) → List (List ℕ)
push [] ws = ws
push (c ∷ w) ws = (c ∷ w) ∷ ws

-- The characters up to the first slash, and the elements after it.
unfoldable pub words : List ℕ → List ℕ × List (List ℕ)
words [] = ([], [])
words (c ∷ cs) = let (w, ws) = words cs in if c == slash then ([], push w ws) else (c ∷ w, ws)

-- The elements of a path: what stands between its slashes, less what is empty.
unfoldable pub elements : List ℕ → List (List ℕ)
unfolding words
elements path = push ((words path).0) ((words path).1)

-- One step of each loop.
words-slash : (c : ℕ) (cs : List ℕ) → (c == slash) ≡ true → words (c ∷ cs) ≡ ([], elements cs)
unfolding words elements
words-slash c cs e = rw e refl

words-other :
    (c : ℕ) (cs : List ℕ) → (c == slash) ≡ false → words (c ∷ cs) ≡ (c ∷ (words cs).0, (words cs).1)
unfolding words
words-other c cs e = rw e refl

span-slash : (c : ℕ) (cs : List ℕ) → (c == slash) ≡ true → span_element (c ∷ cs) ≡ ([], c ∷ cs)
unfolding span_element
span-slash c cs e = rw e refl

pub span-other :
    (c : ℕ) (cs : List ℕ)
    → (c == slash) ≡ false
    → span_element (c ∷ cs) ≡ (c ∷ (span_element cs).0, (span_element cs).1)
unfolding span_element
span-other c cs e = rw e refl

skip-slash : (c : ℕ) (cs : List ℕ) → (c == slash) ≡ true → skip_slashes (c ∷ cs) ≡ skip_slashes cs
unfolding skip_slashes
skip-slash c cs e = rw e refl

pub skip-other : (c : ℕ) (cs : List ℕ) → (c == slash) ≡ false → skip_slashes (c ∷ cs) ≡ c ∷ cs
unfolding skip_slashes
skip-other c cs e = rw e refl

elements-slash : (c : ℕ) (cs : List ℕ) → (c == slash) ≡ true → elements (c ∷ cs) ≡ elements cs
unfolding elements
elements-slash c cs e = ap (λ w. push w.0 w.1) (words-slash c cs e)

elements-skip : (cs : List ℕ) → elements (skip_slashes cs) ≡ elements cs
unfolding skip_slashes
elements-skip [] = refl
elements-skip (c ∷ cs) = elim (Bool-cases (c == slash)) [
  | inl e ↦ ap elements (skip-slash c cs e) ∙ elements-skip cs ∙ sym (elements-slash c cs e)
  | inr e ↦ ap elements (skip-other c cs e)
]

words-span : (cs : List ℕ) → words cs ≡ ((span_element cs).0, elements ((span_element cs).1))
unfolding words span_element elements
words-span [] = refl
words-span (c ∷ cs) = elim (Bool-cases (c == slash)) [
  | inl e ↦ rw (words-slash c cs e, span-slash c cs e, elements-slash c cs e) refl
  | inr e ↦ rw (words-other c cs e, span-other c cs e, words-span cs) refl
]

skip-length : (cs : List ℕ) → length (skip_slashes cs) ≤ length cs
unfolding skip_slashes
skip-length [] = omega arith
skip-length (c ∷ cs) = elim (Bool-cases (c == slash)) [
  | inl e ↦ rw (skip-slash c cs e) (let h = skip-length cs in omega arith)
  | inr e ↦ rw (skip-other c cs e) (omega arith)
]

span-length :
    (cs : List ℕ) → length ((span_element cs).0) + length ((span_element cs).1) ≡ length cs
unfolding span_element
span-length [] = refl
span-length (c ∷ cs) = elim (Bool-cases (c == slash)) [
  | inl e ↦ rw (span-slash c cs e) (omega arith)
  | inr e ↦ rw (span-other c cs e) (let h = span-length cs in omega arith)
]

-- What is left after the slashes starts with an element.
starts : (cs : List ℕ) (c : ℕ) (ds : List ℕ) → skip_slashes cs ≡ c ∷ ds → (c == slash) ≡ false
unfolding skip_slashes
starts [] c ds e = cc
starts (b ∷ cs) c ds e = elim (Bool-cases (b == slash)) [
  | inl q ↦ starts cs c ds (sym (skip-slash b cs q) ∙ e)
  | inr q ↦
      let same : b ∷ cs ≡ c ∷ ds = sym (skip-other b cs q) ∙ e in
      let head : b ≡ c = ap (λ l. get_or l 0 0) same in subst (λ x. (x == slash) ≡ false) head q
]

-- The buffer starts with the first DIRSIZ characters of the element, and with a NUL behind a shorter one.
pub HoldsName : List ℕ → List ℕ → Type 0
HoldsName elem name =
    (take (min (length elem) dirsiz) name ≡ take dirsiz elem)
    × (length elem < dirsiz → get_elem? name (length elem) ≡ some 0)

take-append : (xs ys : List ℕ) (n : ℕ) → n ≡ length xs → take n (xs ++ ys) ≡ xs
take-append [] ys zero e = refl
take-append [] ys (suc n) e = absurd (omega (arith, e))
take-append (x ∷ xs) ys zero e = absurd (omega (arith, e))
take-append (x ∷ xs) ys (suc n) e = ap (λ l. x ∷ l) (take-append xs ys n (omega arith))

pub take_all : (n : ℕ) (xs : List ℕ) → length xs ≤ n → take n xs ≡ xs
take_all zero [] h = refl
take_all zero (x ∷ xs) h = absurd (omega arith)
take_all (suc n) [] h = refl
take_all (suc n) (x ∷ xs) h = ap (λ l. x ∷ l) (take_all n xs (omega arith))

get_elem?-append :
    (xs : List ℕ) (y : ℕ) (ys : List ℕ) → get_elem? (xs ++ y ∷ ys) (length xs) ≡ some y
get_elem?-append [] y ys = refl
get_elem?-append (x ∷ xs) y ys = get_elem?-append xs y ys

copy_name-HoldsName : (elem name : List ℕ) → HoldsName elem (copy_name elem name)
unfolding copy_name HoldsName
copy_name-HoldsName elem name = elim (Bool-cases (leb dirsiz (length elem))) [
  | inl t ↦
      let l = length-take dirsiz elem (ground arith) in
      rw t (
        take-append (take dirsiz elem) (drop dirsiz name) (min (length elem) dirsiz) (ground arith),
        λ lt. absurd (ground arith),
      )
  | inr t ↦
      let short : min (length elem) dirsiz ≡ length elem = ground arith in
      rw t (
        take-append elem (0 ∷ drop (length elem + 1) name) (min (length elem) dirsiz) short
            ∙ sym (take_all dirsiz elem (ground arith)),
        λ lt. get_elem?-append elem 0 (drop (length elem + 1) name),
      )
]

-- What `skipelem` promises of a path, whose elements are those of the rest behind the one that it copies.
pub SkipOk : List ℕ → List ℕ → Option (List ℕ × List ℕ) → Type 0
SkipOk path name none = elements path ≡ []
SkipOk path name (some (rest, name')) =
    (elem : List ℕ) × (elements path ≡ elem ∷ elements rest)
    × HoldsName elem name'
    × (length rest < length path)

-- The elements of a path that starts with one.
elements-first :
    (c : ℕ) (cs : List ℕ)
    → (c == slash) ≡ false
    → elements (c ∷ cs) ≡ (c ∷ (span_element cs).0) ∷ elements ((span_element cs).1)
unfolding elements
elements-first c cs e =
    ap (λ w. push w.0 w.1) (words-span (c ∷ cs))
    ∙ ap (λ s. push s.0 (elements s.1)) (span-other c cs e)

skipelem-none : (path name : List ℕ) → skip_slashes path ≡ [] → skipelem path name ≡ none
unfolding skipelem
skipelem-none path name e = rw e refl

pub skipelem-some :
    (path name : List ℕ) (c : ℕ) (cs : List ℕ)
    → skip_slashes path ≡ c ∷ cs
    → skipelem path name
      ≡ some (skip_slashes ((span_element (c ∷ cs)).1), copy_name ((span_element (c ∷ cs)).0) name)
unfolding skipelem copy_name
skipelem-some path name c cs e =
    let q : (length (c ∷ cs) == 0) ≡ false = ground arith in rw (e, q) refl

-- `skipelem` returns 0 for a path with no element. Otherwise it copies the first element into `name`,
-- cut at DIRSIZ characters and ended with a NUL if it is shorter, and returns a shorter path that has the other elements.
pub skipelem-SkipOk : (path name : List ℕ) → SkipOk path name (skipelem path name)
unfolding SkipOk elements
skipelem-SkipOk path name = go (skip_slashes path) refl
  where
    go : (q : List ℕ) → skip_slashes path ≡ q → SkipOk path name (skipelem path name)
    go [] e = rw (skipelem-none path name e) (sym (elements-skip path) ∙ ap elements e)
    go (c ∷ cs) e =
        let first = starts path c cs e in
        let all = sym (elements-skip path) ∙ ap elements e ∙ elements-first c cs first in
        let rest = (span_element cs).1 in
        let l1 = skip-length rest in
        let l2 = span-length cs in
        let l3 = skip-length path in
        rw (skipelem-some path name c cs e) (
          rw (span-other c cs first) (
            (
              c ∷ (span_element cs).0,
              all ∙ ap (λ x. (c ∷ (span_element cs).0) ∷ x) (sym (elements-skip rest)),
              copy_name-HoldsName (c ∷ (span_element cs).0) name,
              (let l4 : length (c ∷ cs) ≤ length path = subst (λ x. length x ≤ length path) e l3 in
                  omega arith),
            )))

-- The loop of `namex` with any outcome `stop` in place of a round after the last that is allowed.
unfoldable pub walk_or :
    Outcome (Found × Fs) → Devsw → ℕ → List ℕ → Bool → List ℕ → ℕ → Fs → Outcome (Found × Fs)
walk_or stop devsw zero path parent name ip fs = stop
walk_or stop devsw (suc k) path parent name ip fs =
    let again = walk_or stop devsw k in
    elim (skipelem path name) [
      | none ↦ arrive parent name ip fs
      | some (path, name) ↦ descend devsw parent path name (again path parent name) ip fs
    ]

-- Rounds of `namex` that do the same.
walk-same :
    (stop : Outcome (Found × Fs)) (devsw : Devsw) (k j : ℕ) (path : List ℕ) (parent : Bool)
    (name : List ℕ) (ip : ℕ) (fs : Fs)
    → length path < k
    → length path < j
    → walk devsw k path parent name ip fs ≡ walk_or stop devsw j path parent name ip fs
unfolding walk walk_or SkipOk
walk-same stop devsw zero j path parent name ip fs lk lj = ground arith
walk-same stop devsw (suc k) zero path parent name ip fs lk lj = ground arith
walk-same stop devsw (suc k) (suc j) path parent name ip fs lk lj =
    go (skipelem path name) refl (skipelem-SkipOk path name) (walk-same stop devsw k j)
  where
    Same : Type 0
    Same =
        (p : List ℕ) (parent : Bool) (m : List ℕ) (next : ℕ) (fs : Fs)
        → length p < k
        → length p < j
        → walk devsw k p parent m next fs ≡ walk_or stop devsw j p parent m next fs

    go :
        (r : Option (List ℕ × List ℕ))
        → skipelem path name ≡ r
        → SkipOk path name r
        → Same
        → walk devsw (suc k) path parent name ip fs
          ≡ walk_or stop devsw (suc j) path parent name ip fs
    go none e s same = rw (walk, walk_or, e) refl
    go (some (p, m)) e (elem, all, copied, shorter) same =
        rw (walk, walk_or, e)
          (ap (λ f. descend devsw parent p m f ip fs)
            (fun_ext (λ next. fun_ext (λ fs. same p parent m next fs (omega arith) (omega arith)))))

-- The loop of `namex` ends within a round for each character of the path, and one: from any inode
-- and path, whatever is put in place of the round after those, the outcome is the same, and so it
-- is with more.
pub walk-enough :
    (stop : Outcome (Found × Fs)) (devsw : Devsw) (k : ℕ) (path : List ℕ) (parent : Bool)
    (name : List ℕ) (ip : ℕ) (fs : Fs)
    → length path < k
    → walk devsw k path parent name ip fs
      ≡ walk_or stop devsw (length path + 1) path parent name ip fs
walk-enough stop devsw k path parent name ip fs lt =
    walk-same stop devsw k (length path + 1) path parent name ip fs lt (omega arith)
