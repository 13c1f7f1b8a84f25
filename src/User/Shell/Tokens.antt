-- ===== src/User/Shell/Tokens.antt =====
-- The scanner of sh.c, gettoken and peek: how far they move.
use a.Base.{
  ℕ, ◌+◌, ◌≤◌, ◌<◌, ◌≡◌, refl, sym, ap, ◌∙◌, ◌≢◌, ◌⊎◌, inl, inr, Bool, true, false, ◌&&◌, ◌||◌, not,
  ◌==◌, arith, if◌then◌else◌, Bool-cases, ==_iff, List, [], ◌∷◌, length, drop,
}
use a.User.Ulib.{strchr}
use a.User.Shell.{
  Cursor, char, whitespace, symbols, among, ordinary, skip, skip_from, token, gettoken, peek,
}

-- `t` is at or behind `s`, on the same line.
pub record Moves (s t : Cursor) : Type 0 where
  pub same_end : t.place + length t.rest ≡ s.place + length s.rest
  pub shorter : length t.rest ≤ length s.rest

pub Moves-refl : (s : Cursor) → Moves s s
Moves-refl s = record { same_end = refl; shorter = omega arith }

pub Moves-trans : {s t u : Cursor} → Moves s t → Moves t u → Moves s u
Moves-trans p q = record {
  same_end = q.same_end ∙ p.same_end;
  shorter = (let a = p.shorter in let b = q.shorter in omega arith);
}

skip-Moves :
    (p : ℕ → Bool) (k : ℕ) (cs : List ℕ) → Moves (record { place = k; rest = cs }) (skip p k cs)
unfolding skip
skip-Moves p k [] = Moves-refl _
skip-Moves p k (c ∷ cs) = elim (Bool-cases (p c)) [
  | inl y ↦
      let r = skip-Moves p (k + 1) cs in
      let a = r.same_end in
      let b = r.shorter in rw y (record { same_end = omega arith; shorter = omega arith })
  | inr n ↦ rw n (Moves-refl _)
]

-- `skip` stops at a character that fails the test, or at the end.
skip-stops :
    (p : ℕ → Bool) (k : ℕ) (cs : List ℕ)
    → (char (skip p k cs) ≡ 0) ⊎ (p (char (skip p k cs)) ≡ false)
unfolding skip
skip-stops p k [] = inl refl
skip-stops p k (c ∷ cs) = elim (Bool-cases (p c)) [
  | inl y ↦ rw y (skip-stops p (k + 1) cs)
  | inr n ↦ rw n (inr n)
]

-- It takes a character that passes.
skip-takes :
    (p : ℕ → Bool) (k c : ℕ) (cs : List ℕ)
    → p c ≡ true
    → length (skip p k (c ∷ cs)).rest < length (c ∷ cs)
unfolding skip
skip-takes p k c cs y = rw y (let r = (skip-Moves p (k + 1) cs).shorter in omega arith)

next_char-Moves :
    (k c : ℕ) (cs : List ℕ)
    → Moves (record { place = k; rest = c ∷ cs }) (record { place = k + 1; rest = cs })
next_char-Moves k c cs = record { same_end = omega arith; shorter = omega arith }

not_symbol :
    (c : ℕ)
    → ((c == b'|') || (c == b'(') || (c == b')') || (c == b';') || (c == b'&') || (c == b'<'))
      ≡ false
    → (c == b'>') ≡ false
    → among symbols c ≡ false
unfolding strchr
not_symbol c h g = ground arith

-- A token, from `s` to `t`: 0 where nothing is taken, else a character or more.
abbrev pub Took : Cursor → ℕ → Cursor → Type 0
Took s ret t =
    ((ret ≡ 0) × (length t.rest ≤ length s.rest)) ⊎ ((ret ≢ 0) × (length t.rest < length s.rest))

pub record Token (s : Cursor) (ret : ℕ) (t : Cursor) : Type 0 where
  pub moves : Moves s t
  pub took : Took s ret t

word_scan :
    (k c : ℕ) (cs : List ℕ)
    → ordinary c ≡ true
    → Token (record { place = k; rest = c ∷ cs }) b'a' (skip ordinary k (c ∷ cs))
word_scan k c cs h = record {
  moves = skip-Moves ordinary k (c ∷ cs);
  took = inr (omega arith, skip-takes ordinary k c cs h);
}

char_scan :
    (k c ret : ℕ) (cs : List ℕ)
    → ret ≢ 0
    → Token (record { place = k; rest = c ∷ cs }) ret (record { place = k + 1; rest = cs })
char_scan k c ret cs h = record { moves = next_char-Moves k c cs; took = inr (h, omega arith) }

abbrev pub TokenOf : Cursor → ℕ × Cursor → Type 0
TokenOf s r = Token s r.0 r.1

TokenOf-if :
    (s : Cursor) (b : Bool) (x y : ℕ × Cursor)
    → (b ≡ true → TokenOf s x)
    → (b ≡ false → TokenOf s y)
    → TokenOf s (if b then x else y)
TokenOf-if s true x y h g = h refl
TokenOf-if s false x y h g = g refl

double_scan :
    (k c : ℕ) (cs : List ℕ)
    → (char (record { place = k; rest = cs }) == b'>') ≡ true
    → Token
        (record { place = k; rest = c ∷ cs })
        b'+'
        (record { place = k + 1 + 1; rest = drop 1 cs })
double_scan k c [] h = absurd (omega (arith, (==_iff 0 b'>').0 h))
double_scan k c (d ∷ cs) h = record {
  moves = Moves-trans (next_char-Moves k c (d ∷ cs)) (next_char-Moves (k + 1) d cs);
  took = inr (omega arith, omega arith);
}

token-TokenOf :
    (k : ℕ) (cs : List ℕ)
    → (let s : Cursor = record { place = k; rest = cs } in
        (char s ≡ 0) ⊎ (among whitespace (char s) ≡ false) → TokenOf s (token s))
unfolding token
token-TokenOf k [] h = record { moves = Moves-refl _; took = inl (refl, omega arith) }
token-TokenOf k (c ∷ cs) h =
    TokenOf-if _ (c == 0) _ _ (λ e. record { moves = Moves-refl _; took = inl (refl, omega arith) })
      (λ nz.
        TokenOf-if _
          ((c == b'|') || (c == b'(') || (c == b')') || (c == b';') || (c == b'&') || (c == b'<')) _
          _ (λ e. char_scan k c c cs (λ z. ground arith))
          (λ ns.
            TokenOf-if _ (c == b'>') _ _
              (λ e.
                TokenOf-if _ (char (record { place = k + 1; rest = cs }) == b'>') _ _
                  (double_scan k c cs) (λ e'. char_scan k c c cs (λ z. ground arith)))
              (λ ng. word_scan k c cs (word_test h nz ns ng))))
  where
    word_test :
        (c ≡ 0) ⊎ (among whitespace c ≡ false)
        → (c == 0) ≡ false
        → ((c == b'|') || (c == b'(') || (c == b')') || (c == b';') || (c == b'&') || (c == b'<'))
          ≡ false
        → (c == b'>') ≡ false
        → ordinary c ≡ true
    word_test (inl z) nz ns ng = absurd (ground arith)
    word_test (inr w) nz ns ng = rw w (rw (not_symbol c ns ng) refl)

-- `gettoken`, and a word that it finds: a character or more, within the line.
pub gettoken-Token : (s : Cursor) → Token s (gettoken s).0 (gettoken s).2
unfolding gettoken
gettoken-Token s =
    let start = skip_from (among whitespace) s in
    let before = skip-Moves (among whitespace) s.place s.rest in
    let t = token-TokenOf start.place start.rest (skip-stops (among whitespace) s.place s.rest) in
    let after = skip-Moves (among whitespace) (token start).1.place (token start).1.rest in
    let x = before.shorter in
    let y = after.shorter in
    record {
      moves = Moves-trans before (Moves-trans t.moves after);
      took = elim t.took [
        | inl z ↦ let l = z.1 in inl (z.0, omega arith)
        | inr z ↦ let l = z.1 in inr (z.0, omega arith)
      ];
    }

pub gettoken-word :
    (s : Cursor)
    → (gettoken s).0 ≢ 0
    → ((gettoken s).1.q < (gettoken s).1.eq) × ((gettoken s).1.eq ≤ s.place + length s.rest)
unfolding gettoken
gettoken-word s nz =
    let start = skip_from (among whitespace) s in
    let before = (skip-Moves (among whitespace) s.place s.rest).same_end in
    let t = token-TokenOf start.place start.rest (skip-stops (among whitespace) s.place s.rest) in
    let m = t.moves.same_end in
    elim t.took [ inl z ↦ absurd (nz z.0) | inr z ↦ let l = z.1 in (omega arith, omega arith) ]

pub gettoken-takes :
    (s : Cursor) → ((gettoken s).0 == 0) ≡ false → length (gettoken s).2.rest < length s.rest
gettoken-takes s nz = elim (gettoken-Token s).took [
  | inl z ↦ absurd (let e = z.0 in ground arith)
  | inr z ↦ z.1
]

pub peek-Moves : (toks : List ℕ) (s : Cursor) → Moves s (peek toks s).1
unfolding peek
peek-Moves toks s = skip-Moves (among whitespace) s.place s.rest

skip-fixed : (p : ℕ → Bool) (s : Cursor) → p (char s) ≡ false → skip_from p s ≡ s
unfolding skip
skip-fixed p s h = go s.place s.rest h
  where
    go :
        (k : ℕ) (cs : List ℕ)
        → p (char (record { place = k; rest = cs })) ≡ false
        → skip p k cs ≡ record { place = k; rest = cs }
    go k [] h = refl
    go k (c ∷ cs) h = rw h refl

token-nonzero : (s : Cursor) → (char s == 0) ≡ false → (token s).0 ≢ 0
unfolding token
token-nonzero s h = ground arith

and_left : (a b : Bool) → (not a && b) ≡ true → a ≡ false
and_left a b h = ground arith

-- After a `peek` that finds its character, `gettoken` takes one.
pub peek-gettoken :
    (toks : List ℕ) (s : Cursor)
    → (peek toks s).0 ≡ true
    → length (gettoken (peek toks s).1).2.rest < length s.rest
unfolding peek gettoken
peek-gettoken toks s h =
    let t = skip_from (among whitespace) s in
    let nz = and_left (char t == 0) (among toks (char t)) h in
    let before = (skip-Moves (among whitespace) s.place s.rest).shorter in
    let stop : among whitespace (char t) ≡ false =
      elim (skip-stops (among whitespace) s.place s.rest) [
        | inl z ↦ absurd (ground arith)
        | inr w ↦ w
      ] in
    elim (gettoken-Token t).took [
      | inl z ↦ absurd (
          token-nonzero t nz
            (ap (λ u. (token u).0) (sym (skip-fixed (among whitespace) t stop)) ∙ z.0))
      | inr z ↦ let l = z.1 in omega arith
    ]
