-- ===== src/Fs/Bits.antt =====
-- Setting and clearing a bit of a byte of the bitmap.
use a.Base.{
  ℕ, zero, suc, ◌+◌, ◌-◌, ◌^◌, ◌≤◌, ◌<◌, ◌≡◌, refl, Bool, true, false, ◌&&◌, ◌||◌, not, arith, ltb,
  leb, ◌==◌, if◌then◌else◌, ==_iff,
}
use a.Fs.{bit}

all_below : ℕ → (ℕ → Bool) → Bool
all_below zero p = true
all_below (suc n) p = p n && all_below n p

all_below-lt : (n : ℕ) (p : ℕ → Bool) (x : ℕ) → all_below n p ≡ true → x < n → p x ≡ true
unfolding all_below
all_below-lt zero p x h lt = absurd (omega arith)
all_below-lt (suc n) p x h lt = ground (arith, all_below-lt n p x)

-- a law of bytes and two places in them
abbrev Law : (ℕ → ℕ → ℕ → Bool) → Type 0
Law p = all_below 256 (λ y. all_below 8 (λ k. all_below 8 (λ j. p y k j))) ≡ true

Law-holds : (p : ℕ → ℕ → ℕ → Bool) (y k j : ℕ) → Law p → y < 256 → k < 8 → j < 8 → p y k j ≡ true
Law-holds p y k j law a b c =
    all_below-lt 8 (p y k) j
      (all_below-lt 8 (λ k. all_below 8 (p y k)) k
        (all_below-lt 256 (λ y. all_below 8 (λ k. all_below 8 (λ j. p y k j))) y law a) b)
      c

abbrev set_test : ℕ → ℕ → ℕ → Bool
set_test y k j =
    not (bit y k == 0)
    || ((bit (y + 2 ^ k) j == (if j == k then 1 else bit y j)) && ltb (y + 2 ^ k) 256)

set_table : Law set_test
unfolding all_below
set_table = refl

abbrev clear_test : ℕ → ℕ → ℕ → Bool
clear_test y k j =
    (bit y k == 0) || ((bit (y - 2 ^ k) j == (if j == k then 0 else bit y j)) && leb (2 ^ k) y)

clear_table : Law clear_test
unfolding all_below
clear_table = refl

and_true : (a b : Bool) → (a && b) ≡ true → (a ≡ true) × (b ≡ true)
and_true true true e = (refl, refl)
and_true true false e = cc
and_true false b e = cc

or_true : (a b : Bool) → (a || b) ≡ true → a ≡ false → b ≡ true
or_true true b e f = cc
or_true false b e f = e

lt_of_ltb : (a b : ℕ) → ltb a b ≡ true → a < b
lt_of_ltb a b h = ground arith

le_of_leb : (a b : ℕ) → leb a b ≡ true → a ≤ b
le_of_leb a b h = ground arith

module _ (y k j : ℕ) (byte : y < 256) (small_k : k < 8) (small_j : j < 8) where
  pub bit-set :
      bit y k ≡ 0 → (bit (y + 2 ^ k) j ≡ (if j == k then 1 else bit y j)) × (y + 2 ^ k < 256)
  bit-set z =
      let t = Law-holds set_test y k j set_table byte small_k small_j in
      let z' : not (bit y k == 0) ≡ false = rw ((==_iff (bit y k) 0).1 z) refl in
      let (a, b) = and_true _ _ (or_true _ _ t z') in ((==_iff _ _).0 a, lt_of_ltb _ _ b)

  pub bit-clear :
      (bit y k == 0) ≡ false → (bit (y - 2 ^ k) j ≡ (if j == k then 0 else bit y j)) × (2 ^ k ≤ y)
  bit-clear z =
      let t = Law-holds clear_test y k j clear_table byte small_k small_j in
      let (a, b) = and_true _ _ (or_true _ _ t z) in ((==_iff _ _).0 a, le_of_leb _ _ b)
