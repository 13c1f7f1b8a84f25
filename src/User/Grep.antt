-- ===== src/User/Grep.antt =====
-- grep.c: lines of the input that match a pattern with ^ . * and $.
pub mod Matching
use a.Base.{
  ℕ, zero, suc, ◌+◌, ◌-◌, ◌*◌, ◌/◌, ◌%◌, ◌^◌, ◌≤◌, ◌<◌, min, ◌≡◌, refl, sym, ap, ap₂, ◌∙◌, fun_ext,
  ◌≢◌, ◌↔◌, ◌⊎◌, inl, inr, Bool, true, false, ◌&&◌, ◌||◌, not, Option, none, some, List, [], ◌∷◌,
  ◌++◌, map, arith, ltb, leb, ◌==◌, if◌then◌else◌, ==_iff, Bool-cases, Option-cases, length,
  get_elem?, set, take, drop, replicate, modify, All, Outcome, ok, panic, fault, ◌>>=◌, ℤ, pos,
  negsuc, minus_one,
}

-- A C string is the list of its bytes before the nul.

-- `matchstar`; `here` is `matchhere` of the pattern after the star.
unfoldable pub matchstar : ℕ → (List ℕ → Bool) → List ℕ → Bool
matchstar c here [] = here []
matchstar c here (t ∷ ts) = here (t ∷ ts) || ((t == c || c == b'.') && matchstar c here ts)

unfoldable pub matchhere : List ℕ → List ℕ → Bool
unfolding matchstar
matchhere [] text = true
matchhere (c ∷ []) text =
    if c == b'$'
    then elim text [ [] ↦ true | t ∷ ts ↦ false ]
    else elim text [ [] ↦ false | t ∷ ts ↦ c == b'.' || c == t ]
matchhere (c ∷ d ∷ re) text = elim (d == b'*') [
  | true ↦ matchstar c (matchhere re) text
  | false ↦ elim text [ [] ↦ false | t ∷ ts ↦ (c == b'.' || c == t) && matchhere (d ∷ re) ts ]
]

-- The loop of `match`, which looks at the empty string too.
unfoldable pub match_loop : List ℕ → List ℕ → Bool
unfolding matchhere
match_loop re [] = matchhere re []
match_loop re (t ∷ ts) = matchhere re (t ∷ ts) || match_loop re ts

unfoldable pub match : List ℕ → List ℕ → Bool
unfolding match_loop matchhere
match [] text = match_loop [] text
match (c ∷ re) text = if c == b'^' then matchhere re text else match_loop (c ∷ re) text

-- `strchr(p, '\n')`: the line before the first newline that no nul precedes, and what follows it.
unfoldable pub split_line : List ℕ → Option (List ℕ × List ℕ)
split_line [] = none
split_line (b ∷ bs) =
    let rest = split_line bs in
    if b == 0
    then none
    else if b == b'\n'
    then some ([], bs)
    else elim rest [ none ↦ none | some (line, more) ↦ some (b ∷ line, more) ]
