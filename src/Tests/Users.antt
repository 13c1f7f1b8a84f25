-- ===== src/Tests/Users.antt =====
-- The user programs and the user library at fixed inputs.
use a.Base.{ℕ, ◌≡◌, refl, ◌↔◌, true, List, [], ◌∷◌, arith, ok}
use a.User.Grep.{match}
use a.User.Grep.Matching.{match_iff, Selects}
use a.User.Ulib.{atoi}
use a.User.Ulib.Numbers.{atoi-printint}
use a.User.Printf.{printint}

abbrev pattern_text : List ℕ
pattern_text = b'a' ∷ b'.' ∷ b'*' ∷ b'$' ∷ []

abbrev text : List ℕ
text = b'x' ∷ b'a' ∷ b'b' ∷ b'c' ∷ []

match-text : match pattern_text text ≡ true
unfolding match
match-text = refl

match_iff_example : (match pattern_text text ≡ true) ↔ Selects pattern_text text
match_iff_example = match_iff pattern_text text

atoi-printint_example : (s : List ℕ) × (printint 507 10 true ≡ ok s) × (atoi s ≡ 507)
atoi-printint_example = atoi-printint 507 (omega arith)
