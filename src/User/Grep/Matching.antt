-- ===== src/User/Grep/Matching.antt =====
-- The meaning of a pattern of grep.c, and the matcher.
use a.Base.{
  ℕ, ◌≡◌, refl, sym, ap, ◌↔◌, ◌⊎◌, inl, inr, Bool, true, false, ◌&&◌, ◌||◌, List, [], ◌∷◌, ◌++◌,
  arith, ◌==◌, if◌then◌else◌, ==_iff, Bool-cases, All, subst,
}
use a.User.Grep.{matchstar, matchhere, match_loop, match}

-- A pattern is a sequence of single characters, of starred ones, and perhaps a $ at the end.
pub data Token : Type 0 where
  one : ℕ → Token
  many : ℕ → Token
  dollar : Token

abbrev pub parse : List ℕ → List Token
parse [] = []
parse (c ∷ []) = if c == b'$' then dollar ∷ [] else one c ∷ []
parse (c ∷ d ∷ re) = elim (d == b'*') [ true ↦ many c ∷ parse re | false ↦ one c ∷ parse (d ∷ re) ]

abbrev pub Accepts : ℕ → ℕ → Type 0
Accepts c t = (c ≡ b'.') ⊎ (c ≡ t)

-- Some prefix of the text is in the language of the tokens.
abbrev pub Matches : List Token → List ℕ → Type 0
Matches [] text = Unit
Matches (one c ∷ ts) [] = ⊥
Matches (one c ∷ ts) (t ∷ text) = Accepts c t × Matches ts text
Matches (dollar ∷ ts) text = text ≡ []
Matches (many c ∷ ts) text =
    (xs : List ℕ) × (ys : List ℕ) × (text ≡ xs ++ ys) × All (Accepts c) xs × Matches ts ys

matchstar-true :
    (c : ℕ) (here : List ℕ → Bool) (P : List ℕ → Type 0)
    → ((text : List ℕ) → (here text ≡ true) ↔ P text)
    → (text : List ℕ) → matchstar c here text ≡ true
    → (xs : List ℕ) × (ys : List ℕ) × (text ≡ xs ++ ys) × All (Accepts c) xs × P ys
unfolding matchstar
matchstar-true c here P h [] e = ([], [], refl, tt, (h []).0 e)
matchstar-true c here P h (t ∷ ts) e = elim (Bool-cases (here (t ∷ ts))) [
  | inl now ↦ ([], t ∷ ts, refl, tt, (h (t ∷ ts)).0 now)
  | inr later ↦
      let rest : matchstar c here ts ≡ true = ground arith in
      let acc : Accepts c t = elim (Bool-cases (c == b'.')) [
        | inl q ↦ inl ((==_iff c b'.').0 q)
        | inr q ↦ inr (ground arith)
      ] in
      let (xs, ys, eq, all, p) = matchstar-true c here P h ts rest in
      (t ∷ xs, ys, ap (λ l. t ∷ l) eq, (acc, all), p)
]

matchstar_complete :
    (c : ℕ) (here : List ℕ → Bool) (P : List ℕ → Type 0)
    → ((text : List ℕ) → (here text ≡ true) ↔ P text)
    → (xs ys : List ℕ) → All (Accepts c) xs
    → P ys
    → matchstar c here (xs ++ ys) ≡ true
unfolding matchstar
matchstar_complete c here P h [] [] all p = (h []).1 p
matchstar_complete c here P h [] (y ∷ ys) all p = let e = (h (y ∷ ys)).1 p in rw e refl
matchstar_complete c here P h (x ∷ xs) ys all p =
    let e = matchstar_complete c here P h xs ys all.1 p in let a = all.0 in ground arith

Accepts-iff : (c t : ℕ) → ((c == b'.' || c == t) ≡ true) ↔ Accepts c t
Accepts-iff c t = (
  (λ e. elim (Bool-cases (c == b'.')) [
    | inl q ↦ inl ((==_iff c b'.').0 q)
    | inr q ↦ inr (ground arith)
  ]),
  (λ a. ground arith),
)

append-eq-nil : (xs ys : List ℕ) → xs ++ ys ≡ [] → ys ≡ []
append-eq-nil [] ys e = e
append-eq-nil (x ∷ xs) ys e = absurd (cc)

module _ (c d : ℕ) (re : List ℕ) where
  parse-star : (d == b'*') ≡ true → parse (c ∷ d ∷ re) ≡ many c ∷ parse re
  parse-star q = ground arith

  parse-one : (d == b'*') ≡ false → parse (c ∷ d ∷ re) ≡ one c ∷ parse (d ∷ re)
  parse-one q = ground arith

  matchhere-star :
      (text : List ℕ)
      → (d == b'*') ≡ true
      → matchhere (c ∷ d ∷ re) text ≡ matchstar c (matchhere re) text
  unfolding matchhere
  matchhere-star text q = ground arith

  matchhere-one :
      (text : List ℕ)
      → (d == b'*') ≡ false
      → matchhere (c ∷ d ∷ re) text
        ≡ elim text [ [] ↦ false | t ∷ ts ↦ (c == b'.' || c == t) && matchhere (d ∷ re) ts ]
  unfolding matchhere
  matchhere-one text q = ground arith

matchhere_iff : (re text : List ℕ) → (matchhere re text ≡ true) ↔ Matches (parse re) text
unfolding matchhere
matchhere_iff [] text = ((λ _. tt), (λ _. refl))
matchhere_iff (c ∷ []) text = elim (Bool-cases (c == b'$')) [
  | inl q ↦ rw q (last_dollar text)
  | inr q ↦ rw q (last_one c text)
]
  where
    last_dollar :
        (text : List ℕ) → ((elim text [ [] ↦ true | t ∷ ts ↦ false ]) ≡ true) ↔ (text ≡ [])
    last_dollar [] = ((λ _. refl), (λ _. refl))
    last_dollar (t ∷ ts) = ((λ e. absurd (cc)), (λ e. absurd (cc)))

    last_one :
        (c : ℕ) (text : List ℕ)
        → ((elim text [ [] ↦ false | t ∷ ts ↦ c == b'.' || c == t ]) ≡ true)
          ↔ Matches (one c ∷ []) text
    last_one c [] = ((λ e. cc), (λ e. absurd e))
    last_one c (t ∷ ts) = ((λ e. ((Accepts-iff c t).0 e, tt)), (λ a. (Accepts-iff c t).1 a.0))
matchhere_iff (c ∷ d ∷ re) text = elim (Bool-cases (d == b'*')) [
  | inl q ↦
      rw (matchhere-star c d re text q, parse-star c d re q)
        (
          (λ e. matchstar-true c (matchhere re) (Matches (parse re)) (matchhere_iff re) text e),
          (λ m.
              let (xs, ys, eq, all, p) = m in
              rw eq (
                matchstar_complete c (matchhere re) (Matches (parse re)) (matchhere_iff re) xs ys
                  all p)),
        )
  | inr q ↦
      rw (matchhere-one c d re text q, parse-one c d re q) (step (matchhere_iff (d ∷ re)) text)
]
  where
    step :
        ((ts : List ℕ) → (matchhere (d ∷ re) ts ≡ true) ↔ Matches (parse (d ∷ re)) ts)
        → (text : List ℕ)
        → ((elim text [ [] ↦ false | t ∷ ts ↦ (c == b'.' || c == t) && matchhere (d ∷ re) ts ])
            ≡ true)
          ↔ Matches (one c ∷ parse (d ∷ re)) text
    step ih [] = ((λ e. cc), (λ e. absurd e))
    step ih (t ∷ ts) = (
      (λ e. ((Accepts-iff c t).0 (ground arith), (ih ts).0 (ground arith))),
      (λ m. let a = (Accepts-iff c t).1 m.0 in let b = (ih ts).1 m.1 in rw (a, b) refl),
    )

-- Somewhere in the text a match begins.
abbrev pub Occurs : List Token → List ℕ → Type 0
Occurs ts text = (before : List ℕ) × (after : List ℕ) × (text ≡ before ++ after) × Matches ts after

Occurs-cons :
    (re : List ℕ) (t : ℕ) (ts : List ℕ)
    → (Occurs (parse re) ts → match_loop re ts ≡ true)
    → Occurs (parse re) (t ∷ ts)
    → match_loop re (t ∷ ts) ≡ true
unfolding match_loop
Occurs-cons re t ts ih ([], after, eq, m) =
    let e = (matchhere_iff re (t ∷ ts)).1 (subst (Matches (parse re)) (sym eq) m) in rw e refl
Occurs-cons re t ts ih (b ∷ before, after, eq, m) =
    let q : ts ≡ before ++ after = cc in let e = ih (before, after, q, m) in ground arith

match_loop_iff : (re text : List ℕ) → (match_loop re text ≡ true) ↔ Occurs (parse re) text
unfolding match_loop
match_loop_iff re [] = (
  (λ e. ([], [], refl, (matchhere_iff re []).0 e)),
  (λ (before, after, eq, m).
      (matchhere_iff re []).1 (subst (Matches (parse re)) (append-eq-nil before after (sym eq)) m)),
)
match_loop_iff re (t ∷ ts) = (
  (λ e. elim (Bool-cases (matchhere re (t ∷ ts))) [
    | inl now ↦ ([], t ∷ ts, refl, (matchhere_iff re (t ∷ ts)).0 now)
    | inr later ↦
        let (before, after, eq, m) = (match_loop_iff re ts).0 (ground arith) in
        (t ∷ before, after, ap (λ l. t ∷ l) eq, m)
  ]),
  (λ o. Occurs-cons re t ts (match_loop_iff re ts).1 o),
)

-- The pattern that `match` takes a string for: it may begin with ^.
abbrev pub Selects : List ℕ → List ℕ → Type 0
Selects [] text = Unit
Selects (c ∷ re) text = if c == b'^' then Matches (parse re) text else Occurs (parse (c ∷ re)) text

-- `match` returns 1 exactly if the text has what the pattern describes: a match of the rest at its
-- beginning, after a ^, and otherwise a match at some place. A . stands for every character, a
-- starred character for any number of such, a $ at the end for the end of the text.
pub match_iff : (re text : List ℕ) → (match re text ≡ true) ↔ Selects re text
unfolding match
match_iff [] text = ((λ _. tt), (λ _. (match_loop_iff [] text).1 ([], text, refl, tt)))
match_iff (c ∷ re) text = elim (Bool-cases (c == b'^')) [
  | inl q ↦ rw q (matchhere_iff re text)
  | inr q ↦ rw q (match_loop_iff (c ∷ re) text)
]
