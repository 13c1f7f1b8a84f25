-- ===== src/Digits.antt =====
-- The loop of the two printint functions, of console.c and printf.c, that turns a number to digits.
pub mod Value
use a.Base.{
  ℕ, zero, suc, ◌+◌, ◌-◌, ◌*◌, ◌/◌, ◌%◌, ◌^◌, ◌≤◌, ◌<◌, min, ◌≡◌, refl, sym, ap, ap₂, ◌∙◌, fun_ext,
  ◌≢◌, ◌↔◌, ◌⊎◌, inl, inr, Bool, true, false, ◌&&◌, ◌||◌, not, Option, none, some, List, [], ◌∷◌,
  ◌++◌, map, arith, ltb, leb, ◌==◌, if◌then◌else◌, ==_iff, Bool-cases, Option-cases, length,
  get_elem?, set, take, drop, replicate, modify, All, Outcome, ok, panic, fault, ◌>>=◌, ℤ, pos,
  negsuc, minus_one,
}

-- `buf[i++] = digits[x % base]` while `x` is not 0, with `n` places left in `buf`: a digit more than
-- that would be written outside it. The last digit of the number comes first.
unfoldable pub digit_loop : (ℕ → ℕ) → ℕ → ℕ → ℕ → Outcome (List ℕ)
digit_loop digit base zero x = fault
digit_loop digit base (suc n) x =
    let rest = digit_loop digit base n (x / base) in
    if x / base == 0
    then ok (digit (x % base) ∷ [])
    else (rest >>= (λ ds. ok (digit (x % base) ∷ ds)))

-- `"0123456789abcdef"`
abbrev pub lower_digit : ℕ → ℕ
lower_digit d = if ltb d 10 then b'0' + d else b'a' + d - 10

-- `"0123456789ABCDEF"`
abbrev pub upper_digit : ℕ → ℕ
upper_digit d = if ltb d 10 then b'0' + d else b'A' + d - 10
