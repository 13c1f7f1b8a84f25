-- ===== src/Sysfile/Isolation.antt =====
-- The names under which sys_open of sysfile.c looks up the files of containers, through skipelem and namecmp of
-- fs.c.
use a.Base.{
  ℕ, zero, suc, ◌+◌, ◌≤◌, ◌<◌, ◌≡◌, refl, sym, ap, ap₂, ◌∙◌, ◌≢◌, ◌↔◌, inl, inr, false, some, List,
  [], ◌∷◌, ◌++◌, arith, leb, ◌==◌, Bool-cases, drop, take, ok, get_or, All, length, ℤ, pos,
  length-take,
}
use a.Fs.Dir.{dirsiz, namecmp}
use a.Fs.Path.{slash, span_element, skip_slashes, copy_name, skipelem}
use a.Fs.Path.Elements.{span-other, skip-other, skipelem-some, take_all}
use a.Str.{strncmp}
use a.Str.Compare.{cstr, Readable, strncmp_lem}
use a.Sysfile.Names.{map, open_path}

map-inside : (c : ℕ) → 0 < c → c < 208 → map c ≡ b'0' + c
map-inside c lo hi = ground arith

open_path-append :
    (c : ℕ) (p : List ℕ)
    → 0 < c
    → c < 208
    → get_or p 0 0 ≢ b'.'
    → open_path c p ≡ p ++ (b'0' + c) ∷ []
unfolding open_path
open_path-append c [] lo hi plain =
    let m = map-inside c lo hi in let z : (map c == 0) ≡ false = ground arith in rw (z, m) refl
open_path-append c (x ∷ p) lo hi plain =
    let m = map-inside c lo hi in
    let z : (map c == 0) ≡ false = ground arith in
    let dot : (x == b'.') ≡ false = ground arith in rw (dot, z, m) refl

-- The name of a file in the root or the working directory, not one that starts with a dot.
pub record IsName (p : List ℕ) : Type 0 where
  pub chars : All (λ c. (c ≢ slash) × (c ≢ 0)) p
  pub named : 1 ≤ length p
  pub plain : get_or p 0 0 ≢ b'.'

-- A container other than the root, with a number that is told from the others by `map`.
pub record IsContainer (c : ℕ) : Type 0 where
  pub other : 0 < c
  pub small : c < 208

-- the one element of the path that is looked up
abbrev pub marked : ℕ → List ℕ → List ℕ
marked c p = p ++ (b'0' + c) ∷ []

All-snoc :
    (p : List ℕ) (x : ℕ)
    → All (λ c. (c ≢ slash) × (c ≢ 0)) p
    → (x ≢ slash) × (x ≢ 0)
    → All (λ c. (c ≢ slash) × (c ≢ 0)) (p ++ x ∷ [])
All-snoc [] x h hx = (hx, tt)
All-snoc (y ∷ p) x h hx = (h.0, All-snoc p x h.1 hx)

All-take :
    (n : ℕ) (p : List ℕ)
    → All (λ c. (c ≢ slash) × (c ≢ 0)) p
    → All (λ c. (c ≢ slash) × (c ≢ 0)) (take n p)
All-take zero p h = tt
All-take (suc n) [] h = tt
All-take (suc n) (x ∷ p) h = (h.0, All-take n p h.1)

length-marked : (c : ℕ) (p : List ℕ) → length (marked c p) ≡ length p + 1
length-marked c [] = refl
length-marked c (x ∷ p) = let h = length-marked c p in omega arith

span-name : (e : List ℕ) → All (λ c. (c ≢ slash) × (c ≢ 0)) e → span_element e ≡ (e, [])
unfolding span_element
span-name [] h = refl
span-name (c ∷ e) h =
    let q : (c == slash) ≡ false = (let ne = h.0.0 in ground arith) in
    span-other c e q ∙ ap (λ (s : List ℕ × List ℕ). (c ∷ s.0, s.1)) (span-name e h.1)

skipelem-name :
    (e name : List ℕ)
    → All (λ c. (c ≢ slash) × (c ≢ 0)) e
    → 1 ≤ length e
    → skipelem e name ≡ some ([], copy_name e name)
unfolding skip_slashes
skipelem-name [] name h l = absurd (omega arith)
skipelem-name (c ∷ e) name h l =
    let q : (c == slash) ≡ false = (let ne = h.0.0 in ground arith) in
    skipelem-some (c ∷ e) name c e (skip-other c e q)
    ∙ ap (λ (s : List ℕ × List ℕ). some (skip_slashes s.1, copy_name s.0 name))
        (span-name (c ∷ e) h)

cstr-nul : (e y : List ℕ) → All (λ c. (c ≢ slash) × (c ≢ 0)) e → cstr (e ++ 0 ∷ y) ≡ e
cstr-nul [] y h = refl
cstr-nul (c ∷ e) y h =
    let q : (c == 0) ≡ false = (let ne = h.0.1 in ground arith) in
    rw q (ap (λ s. c ∷ s) (cstr-nul e y h.1))

take-cstr :
    (n : ℕ) (x y : List ℕ)
    → n ≡ length x
    → All (λ c. (c ≢ slash) × (c ≢ 0)) x
    → take n (cstr (x ++ y)) ≡ x
take-cstr zero [] y e h = refl
take-cstr (suc n) [] y e h = absurd (omega arith)
take-cstr zero (c ∷ x) y e h = absurd (omega arith)
take-cstr (suc n) (c ∷ x) y e h =
    let q : (c == 0) ≡ false = (let ne = h.0.1 in ground arith) in
    rw q (ap (λ s. c ∷ s) (take-cstr n x y (omega arith) h.1))

Readable-whole : (n : ℕ) (x y : List ℕ) → n ≡ length x → Readable n (x ++ y)
Readable-whole zero x y e = tt
Readable-whole (suc n) [] y e = absurd (omega arith)
Readable-whole (suc n) (c ∷ x) y e = λ nz. Readable-whole n x y (omega arith)

Readable-nul : (n : ℕ) (x y : List ℕ) → Readable n (x ++ 0 ∷ y)
Readable-nul zero x y = tt
Readable-nul (suc n) [] y = λ nz. absurd (nz refl)
Readable-nul (suc n) (c ∷ x) y = λ nz. Readable-nul n x y

-- What `namecmp` reads of a name that `skipelem` copied.
copied :
    (e name : List ℕ)
    → All (λ c. (c ≢ slash) × (c ≢ 0)) e
    → Readable dirsiz (copy_name e name) × (take dirsiz (cstr (copy_name e name)) ≡ take dirsiz e)
unfolding copy_name
copied e name h = elim (Bool-cases (leb dirsiz (length e))) [
  | inl t ↦
      let l : dirsiz ≡ length (take dirsiz e) = sym (length-take dirsiz e (ground arith)) in
      rw t (
        Readable-whole dirsiz (take dirsiz e) (drop dirsiz name) l,
        take-cstr dirsiz (take dirsiz e) (drop dirsiz name) l (All-take dirsiz e h),
      )
  | inr t ↦ rw t (
    Readable-nul dirsiz e (drop (length e + 1) name),
    ap (take dirsiz) (cstr-nul e (drop (length e + 1) name) h),
  )
]

marked-All :
    (c : ℕ) (p : List ℕ) → IsContainer c → IsName p → All (λ c. (c ≢ slash) × (c ≢ 0)) (marked c p)
marked-All c p hc hp =
    let o = hc.other in All-snoc p (b'0' + c) hp.chars ((omega arith), omega arith)

open_path-skipelem :
    (c : ℕ) (p name : List ℕ)
    → IsContainer c
    → IsName p
    → skipelem (open_path c p) name ≡ some ([], copy_name (marked c p) name)
open_path-skipelem c p name hc hp =
    ap (λ x. skipelem x name) (open_path-append c p hc.other hc.small hp.plain)
    ∙ skipelem-name (marked c p) name (marked-All c p hc hp)
        (let l = length-marked c p in omega arith)

snoc-injective : (xs ys : List ℕ) (a b : ℕ) → xs ++ a ∷ [] ≡ ys ++ b ∷ [] → (xs ≡ ys) × (a ≡ b)
snoc-injective [] [] a b e = (refl, ap (λ l. get_or l 0 0) e)
snoc-injective [] (y ∷ []) a b e = cc
snoc-injective [] (y ∷ z ∷ ys) a b e = cc
snoc-injective (x ∷ []) [] a b e = cc
snoc-injective (x ∷ z ∷ xs) [] a b e = cc
snoc-injective (x ∷ xs) (y ∷ ys) a b e =
    let (same, last) = snoc-injective xs ys a b (ap (drop 1) e) in
    (ap₂ ◌∷◌ (ap (λ l. get_or l 0 0) e) same, last)

take-marked :
    (c d : ℕ) (p : List ℕ) → dirsiz ≤ length p → take dirsiz (marked c p) ≡ take dirsiz (marked d p)
take-marked c d p h =
    take-long dirsiz p ((b'0' + c) ∷ []) h ∙ sym (take-long dirsiz p ((b'0' + d) ∷ []) h)
  where
    take-long : (n : ℕ) (xs ys : List ℕ) → n ≤ length xs → take n (xs ++ ys) ≡ take n xs
    take-long zero xs ys h = refl
    take-long (suc n) [] ys h = absurd (omega arith)
    take-long (suc n) (x ∷ xs) ys h = ap (λ l. x ∷ l) (take-long n xs ys (omega arith))

module _ (c d : ℕ) (p name other : List ℕ) (hc : IsContainer c) (hd : IsContainer d)
    (hp : IsName p) where
  -- Two processes, in containers other than the root with numbers below 208, open files by names of
  -- less than DIRSIZ characters, with no slash and no dot in front. Of the path that `sys_open`
  -- looks up, `skipelem` takes the one element and leaves nothing, and `namecmp` finds the two
  -- elements the same exactly if the containers are the same and the names too.
  pub open_path-namecmp :
      (q : List ℕ)
      → IsName q
      → length p < dirsiz
      → length q < dirsiz
      → (r : List ℕ) × (s : List ℕ) × (z : ℤ) × (skipelem (open_path c p) name ≡ some ([], r))
        × (skipelem (open_path d q) other ≡ some ([], s))
        × (namecmp r s ≡ ok z)
        × ((z ≡ pos 0) ↔ ((c ≡ d) × (p ≡ q)))
  unfolding strncmp
  open_path-namecmp q hq lp lq =
      let (rr, er) = copied (marked c p) name (marked-All c p hc hp) in
      let (rs, es) = copied (marked d q) other (marked-All d q hd hq) in
      let (z, run, (to, from)) =
        strncmp_lem (copy_name (marked c p) name) (copy_name (marked d q) other) dirsiz rr rs in
      let wp = take_all dirsiz (marked c p) (let l = length-marked c p in omega arith) in
      let wq = take_all dirsiz (marked d q) (let l = length-marked d q in omega arith) in
      (
        copy_name (marked c p) name,
        copy_name (marked d q) other,
        z,
        open_path-skipelem c p name hc hp,
        open_path-skipelem d q other hd hq,
        run,
        (
          (λ h.
              let same : marked c p ≡ marked d q = sym wp ∙ sym er ∙ to h ∙ es ∙ wq in
              let (names, last) = snoc-injective p q (b'0' + c) (b'0' + d) same in
              (omega (arith, last), names)),
          (λ (ec, ep). from (er ∙ ap (take dirsiz) (ap₂ marked ec ep) ∙ sym es)),
        ),
      )

  -- A name of DIRSIZ characters or more, with no slash and no dot in front, is cut before the
  -- character of the container: of the paths that `sys_open` looks up for it in any two containers
  -- other than the root with numbers below 208, `skipelem` takes elements that `namecmp` finds the
  -- same.
  pub open_path-cut :
      dirsiz ≤ length p
      → (r : List ℕ) × (s : List ℕ) × (skipelem (open_path c p) name ≡ some ([], r))
        × (skipelem (open_path d p) other ≡ some ([], s))
        × (namecmp r s ≡ ok (pos 0))
  unfolding strncmp
  open_path-cut long =
      let (rr, er) = copied (marked c p) name (marked-All c p hc hp) in
      let (rs, es) = copied (marked d p) other (marked-All d p hd hp) in
      let (z, run, (to, from)) =
        strncmp_lem (copy_name (marked c p) name) (copy_name (marked d p) other) dirsiz rr rs in
      (
        copy_name (marked c p) name,
        copy_name (marked d p) other,
        open_path-skipelem c p name hc hp,
        open_path-skipelem d p other hd hp,
        run ∙ ap ok (from (er ∙ take-marked c d p long ∙ sym es)),
      )
