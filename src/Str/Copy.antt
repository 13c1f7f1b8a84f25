-- ===== src/Str/Copy.antt =====
-- `strncpy`, `safestrcpy` and `strlen` of string.c against the strings that their arguments hold.
use a.Base.{
  ℕ, zero, suc, ◌≤◌, ◌<◌, ◌≡◌, refl, ap, inl, inr, List, [], ◌∷◌, ◌++◌, arith, ◌==◌, Bool-cases,
  length, take, drop, replicate, Outcome, ok,
}
use a.Str.{clear, strncpy, put_nul, safestrcpy_loop, safestrcpy, strlen}
use a.Str.Compare.{cstr, Readable}

-- The bytes that `strncpy` writes: the string, cut off at `n` bytes or filled up with NULs.
abbrev pub padded : ℕ → List ℕ → List ℕ
padded zero t = []
padded (suc n) [] = 0 ∷ padded n []
padded (suc n) (c ∷ t) = c ∷ padded n t

padded-nil : (n : ℕ) → padded n [] ≡ replicate n 0
padded-nil zero = refl
padded-nil (suc n) = ap (λ y. 0 ∷ y) (padded-nil n)

-- A copy of `n` bytes into `s` came out as `bytes`; what stood behind them is left.
abbrev Wrote : ℕ → List ℕ → List ℕ → Outcome (List ℕ) → Type 0
Wrote n s bytes r = (s' : List ℕ) × (r ≡ ok s') × (s' ≡ bytes ++ drop n s)

clear-Wrote : (n : ℕ) (s : List ℕ) → n ≤ length s → Wrote n s (replicate n 0) (clear n s)
unfolding clear
clear-Wrote zero s h = (s, refl, refl)
clear-Wrote (suc n) [] h = absurd (omega arith)
clear-Wrote (suc n) (c ∷ s) h =
    let (s', e, w) = clear-Wrote n s (omega arith) in (0 ∷ s', ground arith, ap (λ y. 0 ∷ y) w)

-- `strncpy` writes the first `n` bytes, the string padded with NULs, and nothing behind them.
pub strncpy-padded :
    (s t : List ℕ) (n : ℕ)
    → n ≤ length s
    → Readable n t
    → (s' : List ℕ) × (strncpy s t n ≡ ok s') × (s' ≡ padded n (cstr t) ++ drop n s)
unfolding strncpy
strncpy-padded s t zero h r = (s, refl, refl)
strncpy-padded [] t (suc n) h r = absurd (omega arith)
strncpy-padded (c ∷ s) [] (suc n) h r = elim r [ ]
strncpy-padded (c ∷ s) (x ∷ t) (suc n) h r = elim (Bool-cases (x == 0)) [
  | inl e ↦
      let (s', e', w) = clear-Wrote n s (omega arith) in
      (0 ∷ s', ground arith, rw e (rw (padded-nil n) (ap (λ y. 0 ∷ y) w)))
  | inr ne ↦
      let (s', e', w) = strncpy-padded s t n (omega arith) (r (ground arith)) in
      (x ∷ s', ground arith, rw ne (ap (λ y. x ∷ y) w))
]

-- `safestrcpy` into an array of at least `n` bytes leaves the string cut off at `n - 1` bytes,
-- NUL-terminated, in an array of the same length.
pub safestrcpy_lem :
    (s t : List ℕ) (n : ℕ)
    → n < length s
    → Readable n t
    → (s' : List ℕ) × (safestrcpy s t (suc n) ≡ ok s')
      × (cstr s' ≡ take n (cstr t))
      × (length s' ≡ length s)
unfolding safestrcpy safestrcpy_loop put_nul
safestrcpy_lem [] t zero h r = absurd (omega arith)
safestrcpy_lem (c ∷ s) t zero h r = (0 ∷ s, refl, refl, refl)
safestrcpy_lem [] t (suc n) h r = absurd (omega arith)
safestrcpy_lem (c ∷ s) [] (suc n) h r = elim r [ ]
safestrcpy_lem (c ∷ []) (x ∷ t) (suc n) h r = absurd (omega arith)
safestrcpy_lem (c ∷ d ∷ s) (x ∷ t) (suc n) h r = elim (Bool-cases (x == 0)) [
  | inl e ↦ (x ∷ 0 ∷ s, ground arith, ground arith, ground arith)
  | inr ne ↦
      let (s', e', w, l) = safestrcpy_lem (d ∷ s) t n (omega arith) (r (ground arith)) in
      (x ∷ s', ground arith, ground arith, omega arith)
]

-- `strlen` of an array that holds a NUL returns the number of bytes before the first.
pub strlen-length : (s : List ℕ) → Readable (suc (length s)) s → strlen s ≡ ok (length (cstr s))
unfolding strlen
strlen-length [] r = elim r [ ]
strlen-length (c ∷ s) r = elim (Bool-cases (c == 0)) [
  | inl e ↦ ground arith
  | inr ne ↦ ground (arith, strlen-length s (r (ground arith)))
]
