-- ===== src/User/Ulib/Numbers.antt =====
-- atoi of ulib.c and printint of printf.c.
use a.Base.{
  ℕ, ◌+◌, ◌-◌, ◌*◌, ◌^◌, ◌≤◌, ◌<◌, ◌≡◌, refl, ◌∙◌, true, List, [], ◌∷◌, ◌++◌, arith, All, ok,
}
use a.Digits.{upper_digit}
use a.Digits.Value.{value, Fits-ten, digit_loop-IsDigits, div_mod_ten}
use a.User.Ulib.{atoi_loop, atoi}
use a.User.Printf.{printint}
use mathlib.Core.List.{reverse, reverse-cons}

abbrev IsDigit : ℕ → Type 0
IsDigit d = (b'0' ≤ d) × (d ≤ b'9')

atoi_loop-append :
    (n : ℕ) (xs : List ℕ) (d : ℕ)
    → All IsDigit xs
    → IsDigit d
    → atoi_loop n (xs ++ (d ∷ [])) ≡ atoi_loop n xs * 10 + d - b'0'
unfolding atoi_loop
atoi_loop-append n [] d all h = ground arith
atoi_loop-append n (x ∷ xs) d all h =
    let e = atoi_loop-append (n * 10 + x - b'0') xs d all.1 h in let a = all.0 in ground arith

All-append {ℓ κ} :
    {A : Type ℓ} (P : A → Type κ) (xs : List A) (y : A) → All P xs → P y → All P (xs ++ (y ∷ []))
All-append P [] y h p = (p, tt)
All-append P (x ∷ xs) y h p = (h.0, All-append P xs y h.1 p)

abbrev undigit : ℕ → ℕ
undigit d = d - b'0'

atoi_loop-reverse :
    (ds : List ℕ)
    → All (λ d. (k : ℕ) × (k < 10) × (d ≡ upper_digit k)) ds
    → All IsDigit (reverse ds) × (atoi_loop 0 (reverse ds) ≡ value undigit 10 ds)
unfolding atoi_loop
atoi_loop-reverse [] h = (tt, refl)
atoi_loop-reverse (d ∷ ds) h =
    let (all, e) = atoi_loop-reverse ds h.1 in
    let (k, lt, q) = h.0 in
    let digit : IsDigit d = ground arith in
    let a = atoi_loop-append 0 (reverse ds) d all digit in
    rw (reverse-cons d ds) (All-append IsDigit (reverse ds) d all digit, ground arith)

-- What `printint` prints in base 10 for an `int` that is not negative fits in its buffer, and is read
-- back by `atoi`.
pub atoi-printint : (x : ℕ) → x < 2 ^ 31 → (s : List ℕ) × (printint x 10 true ≡ ok s) × (atoi s ≡ x)
unfolding printint atoi
atoi-printint x small =
    let (ds, r, d) =
      digit_loop-IsDigits upper_digit undigit 10 16 x (λ k lt. ground arith) (omega arith)
        div_mod_ten (Fits-ten 6 x (omega arith)) in
    let (all, e) = atoi_loop-reverse ds d.digits in (reverse ds, ground arith, e ∙ d.worth)
