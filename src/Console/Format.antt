-- ===== src/Console/Format.antt =====
-- printint and cprintf of console.c: the characters that they pass to consputc.
use a.Base.{
  Bool-cases, inl, inr, ◌-◌, ◌^◌, ltb, ℕ, ◌+◌, ◌-◌, ◌%◌, ◌^◌, ◌<◌, ◌≡◌, refl, inl, inr, Bool, true,
  false, ◌&&◌, ◌||◌, List, [], ◌∷◌, ◌++◌, arith, ltb, leb, ◌==◌, if◌then◌else◌, Bool-cases, length,
  Outcome, ok, fault, ◌>>=◌,
}
use a.Digits.{digit_loop, lower_digit}
use a.Digits.Value.{
  Fits-ten, Fits-sixteen, IsDigits, digit_loop-IsDigits, div_mod_ten, div_mod_sixteen,
}
use mathlib.Core.List.{reverse}

-- `printint`; `xx` is a 32-bit pattern, and `buf` has 16 places.
unfoldable pub printint : ℕ → ℕ → Bool → Outcome (List ℕ)
printint xx base sign =
    let neg = sign && leb (2 ^ 31) xx in
    let x = if neg then (2 ^ 32 - xx) % 2 ^ 32 else xx in
    digit_loop lower_digit base 16 x >>= λ ds.
    if neg then (if ltb (length ds) 16 then ok (b'-' ∷ reverse ds) else fault) else ok (reverse ds)

-- An argument of cprintf: a word, and the string that is there if the format takes it for a pointer.
pub record Argument : Type 0 where
  pub word : ℕ
  pub string : List ℕ

-- `*argp++`; without an argument it reads outside the call's stack frame.
abbrev pub next : List Argument → Outcome (Argument × List Argument)
next [] = fault
next (a ∷ args) = ok (a, args)

-- The switch of `cprintf`, for the character after a %: what it prints, and the arguments left.
unfoldable pub format : ℕ → List Argument → Outcome (List ℕ × List Argument)
format c args =
    if c == b'd'
    then (do (a, rest) ← next args; s ← printint a.word 10 true; ok (s, rest))
    else if c == b'x' || c == b'p'
    then (do (a, rest) ← next args; s ← printint a.word 16 false; ok (s, rest))
    else if c == b's'
    then (do
      (a, rest) ← next args
      ok (if a.word == 0 then b'(' ∷ b'n' ∷ b'u' ∷ b'l' ∷ b'l' ∷ b')' ∷ [] else a.string, rest))
    else if c == b'%'
    then ok (b'%' ∷ [], args)
    else ok (b'%' ∷ c ∷ [], args)

-- The loop of `cprintf` over the format.
unfoldable pub cprintf : List ℕ → List Argument → Outcome (List ℕ)
cprintf [] args = ok []
cprintf (c ∷ []) args = ok (if c == b'%' then [] else c ∷ [])
cprintf (c ∷ d ∷ fmt) args = elim (c == b'%') [
  | true ↦ format d args >>= (λ (s, rest). cprintf fmt rest >>= (λ more. ok (s ++ more)))
  | false ↦ cprintf (d ∷ fmt) args >>= (λ more. ok (c ∷ more))
]

abbrev pub undigit : ℕ → ℕ
undigit d = if leb b'a' d then d - b'a' + 10 else d - b'0'

-- What `printint` prints of a 32-bit number in base 16 fits in its buffer, and is a hexadecimal
-- numeral, its digits in small letters, for the number.
pub printint-IsDigits :
    (x : ℕ)
    → x < 2 ^ 32
    → (ds : List ℕ) × (printint x 16 false ≡ ok (reverse ds)) × IsDigits lower_digit undigit 16 x ds
unfolding printint
printint-IsDigits x small =
    let (ds, r, d) =
      digit_loop-IsDigits lower_digit undigit 16 16 x (λ k lt. ground arith) (omega arith)
        div_mod_sixteen (Fits-sixteen 8 x small) in
    (ds, ground arith, d)

decimal :
    (x : ℕ)
    → x < 2 ^ 32
    → (ds : List ℕ) × (digit_loop lower_digit 10 16 x ≡ ok ds)
      × IsDigits lower_digit undigit 10 x ds
decimal x small =
    digit_loop-IsDigits lower_digit undigit 10 16 x (λ k lt. ground arith) (omega arith) div_mod_ten
      (Fits-ten 6 x small)

-- In base 10 with a sign, `printint` of every 32-bit pattern fits in its buffer: it prints the digits
-- of the pattern, or, if that stands for a negative `int`, a minus sign and the digits of its
-- absolute value.
pub printint-signed :
    (x : ℕ)
    → x < 2 ^ 32
    → (ds : List ℕ) × (printint x 10 true
        ≡ ok (if leb (2 ^ 31) x then b'-' ∷ reverse ds else reverse ds))
      × IsDigits lower_digit undigit 10 (if leb (2 ^ 31) x then 2 ^ 32 - x else x) ds
unfolding printint
printint-signed x small = elim (Bool-cases (leb (2 ^ 31) x)) [
  | inl t ↦
      let e : (2 ^ 32 - x) % 2 ^ 32 ≡ 2 ^ 32 - x = ground arith in
      let (ds, r, d) = decimal (2 ^ 32 - x) (ground arith) in
      let few = d.few 10 (Fits-ten 0 (2 ^ 32 - x) (ground arith)) in
      (ds, rw (t, e, r) (ground arith), rw t d)
  | inr t ↦ let (ds, r, d) = decimal x small in (ds, rw (t, r) refl, rw t d)
]
