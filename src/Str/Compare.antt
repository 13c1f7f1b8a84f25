-- ===== src/Str/Compare.antt =====
-- `strncmp` of string.c against the strings that its arguments hold.
use a.Base.{
  ℕ, zero, suc, ◌≡◌, refl, ◌≢◌, inl, inr, List, [], ◌∷◌, arith, ◌==◌, if◌then◌else◌, Bool-cases,
  take, Outcome, ok, ℤ, pos,
}
use a.Str.{strncmp, byte_diff}

-- The string that an array holds: its bytes before the first NUL.
abbrev pub cstr : List ℕ → List ℕ
cstr [] = []
cstr (c ∷ s) = if c == 0 then [] else c ∷ cstr s

-- The array has `n` bytes, or a NUL among fewer: a routine that stops at the NUL reads inside it.
abbrev pub Readable : ℕ → List ℕ → Type 0
Readable zero s = Unit
Readable (suc n) [] = ⊥
Readable (suc n) (c ∷ s) = c ≢ 0 → Readable n s

byte_diff-zero : (b c : ℕ) → byte_diff b c ≡ pos 0 → b ≡ c
byte_diff-zero b c h = ground arith

-- what `strncmp` returns says whether the strings agree in their first `n` bytes
abbrev Decides : List ℕ → List ℕ → Outcome ℤ → Type 0
Decides x y r = (z : ℤ) × (r ≡ ok z) × ((z ≡ pos 0 → x ≡ y) × (x ≡ y → z ≡ pos 0))

strncmp-cons :
    (b c n : ℕ) (p q : List ℕ)
    → b ≢ 0
    → b ≡ c
    → Decides (take n (cstr p)) (take n (cstr q)) (strncmp p q n)
    → Decides
        (take (suc n) (cstr (b ∷ p)))
        (take (suc n) (cstr (c ∷ q)))
        (strncmp (b ∷ p) (c ∷ q) (suc n))
unfolding strncmp
strncmp-cons b c n p q nz e (z, r, dec) =
    (z, ground arith, ((λ h. ground (arith, dec.0 h)), (λ h. dec.1 (ground arith))))

strncmp-Decides :
    (n : ℕ) (p q : List ℕ)
    → Readable n p
    → Readable n q
    → Decides (take n (cstr p)) (take n (cstr q)) (strncmp p q n)
unfolding strncmp
strncmp-Decides zero p q rp rq = (pos 0, refl, ((λ h. refl), (λ h. refl)))
strncmp-Decides (suc n) [] q rp rq = elim rp [ ]
strncmp-Decides (suc n) (b ∷ p) [] rp rq = elim rq [ ]
strncmp-Decides (suc n) (b ∷ p) (c ∷ q) rp rq = elim (Bool-cases (b == 0)) [
  | inl e ↦ (byte_diff b c, ground arith, ((λ h. ground arith), (λ h. ground arith)))
  | inr ne ↦ elim (Bool-cases (b == c)) [
    | inl e ↦
        strncmp-cons b c n p q (ground arith) (ground arith)
          (strncmp-Decides n p q (rp (ground arith)) (rq (ground arith)))
    | inr ne' ↦ (byte_diff b c, ground arith, ((λ h. ground arith), (λ h. ground arith)))
  ]
]

-- `strncmp` returns, and returns 0 exactly if the two strings agree in their first `n` bytes.
pub strncmp_lem :
    (p q : List ℕ) (n : ℕ)
    → Readable n p
    → Readable n q
    → (z : ℤ) × (strncmp p q n ≡ ok z)
      × ((z ≡ pos 0 → take n (cstr p) ≡ take n (cstr q))
          × (take n (cstr p) ≡ take n (cstr q) → z ≡ pos 0))
strncmp_lem p q n rp rq = strncmp-Decides n p q rp rq
