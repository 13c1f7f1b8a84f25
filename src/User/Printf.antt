-- ===== src/User/Printf.antt =====
-- printf.c: formatted output of user programs.
use a.Base.{
  ℕ, ◌-◌, ◌%◌, ◌^◌, Bool, true, false, ◌&&◌, ◌||◌, List, [], ◌∷◌, ◌++◌, ltb, leb, ◌==◌,
  if◌then◌else◌, length, Outcome, ok, fault, ◌>>=◌,
}
use a.Digits.{digit_loop, upper_digit}
use mathlib.Core.List.{reverse}

-- `printint`: the bytes that it writes. `xx` is a 32-bit pattern; `buf` has 16 places, of which the
-- sign needs one.
unfoldable pub printint : ℕ → ℕ → Bool → Outcome (List ℕ)
printint xx base sgn =
    let neg = sgn && leb (2 ^ 31) xx in
    let x = if neg then (2 ^ 32 - xx) % 2 ^ 32 else xx in
    digit_loop upper_digit base 16 x >>= λ ds.
    if neg then (if ltb (length ds) 16 then ok (b'-' ∷ reverse ds) else fault) else ok (reverse ds)

-- An argument of printf: a word, and the string that is there if the format takes it for a pointer.
pub record Argument : Type 0 where
  pub word : ℕ
  pub string : List ℕ

abbrev pub null_string : List ℕ
null_string = b'(' ∷ b'n' ∷ b'u' ∷ b'l' ∷ b'l' ∷ b')' ∷ []

-- The branch for the character after a %: what it prints, and the arguments left. A missing argument
-- is a read outside the call's stack frame.
unfoldable pub format : ℕ → List Argument → Outcome (List ℕ × List Argument)
unfolding printint
format c args =
    let take : Outcome (Argument × List Argument) = elim args [
      | [] ↦ fault
      | a ∷ rest ↦ ok (a, rest)
    ] in
    if c == b'd'
    then (do (a, rest) ← take; s ← printint a.word 10 true; ok (s, rest))
    else if c == b'x' || c == b'p'
    then (do (a, rest) ← take; s ← printint a.word 16 false; ok (s, rest))
    else if c == b's'
    then (do (a, rest) ← take; ok (if a.word == 0 then null_string else a.string, rest))
    else if c == b'c'
    then (do (a, rest) ← take; ok (a.word % 256 ∷ [], rest))
    else if c == b'%'
    then ok (c ∷ [], args)
    else ok (b'%' ∷ c ∷ [], args)

-- The loop of `printf` in its state 0, or, if `percent`, in state '%'.
unfoldable pub printf_loop : Bool → List ℕ → List Argument → Outcome (List ℕ)
unfolding format
printf_loop percent [] args = ok []
printf_loop true (c ∷ fmt) args = do
  (s, rest) ← format c args
  more ← printf_loop false fmt rest
  ok (s ++ more)
printf_loop false (c ∷ fmt) args = elim (c == b'%') [
  | true ↦ printf_loop true fmt args
  | false ↦ printf_loop false fmt args >>= λ more. ok (c ∷ more)
]

unfoldable pub printf : List ℕ → List Argument → Outcome (List ℕ)
unfolding printf_loop
printf fmt args = printf_loop false fmt args
