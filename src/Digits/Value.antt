-- ===== src/Digits/Value.antt =====
-- The digits of a number in base 10 and 16: enough places, and their value.
use a.Base.{
  length, ℕ, zero, suc, ◌+◌, ◌*◌, ◌/◌, ◌%◌, ◌^◌, ◌<◌, ◌≡◌, refl, ◌⊎◌, inl, inr, List, [], ◌∷◌,
  arith, ◌==◌, ==_iff, Bool-cases, All, ok, subst, false, ◌≤◌,
}
use a.Digits.{digit_loop}

-- The number that digits stand for, the last digit of the number first.
abbrev pub value : (ℕ → ℕ) → ℕ → List ℕ → ℕ
value undigit base [] = 0
value undigit base (d ∷ ds) = undigit d + base * value undigit base ds

-- A number of at most `n` digits.
abbrev pub Fits : ℕ → ℕ → ℕ → Type 0
Fits base zero x = ⊥
Fits base (suc n) x = (x / base ≡ 0) ⊎ Fits base n (x / base)

-- What the loop gives for a number that fits.
pub record IsDigits (digit : ℕ → ℕ) (undigit : ℕ → ℕ) (base x : ℕ) (ds : List ℕ) : Type 0 where
  pub worth : value undigit base ds ≡ x
  pub few : (m : ℕ) → Fits base m x → length ds ≤ m
  pub digits : All (λ d. (k : ℕ) × (k < base) × (d ≡ digit k)) ds

few_one : (d base x m : ℕ) → Fits base m x → length (d ∷ []) ≤ m
few_one d base x zero h = elim h [ ]
few_one d base x (suc m) h = omega arith

few_more :
    (d base x : ℕ) (ds : List ℕ)
    → (x / base == 0) ≡ false
    → ((m : ℕ) → Fits base m (x / base) → length ds ≤ m)
    → (m : ℕ) → Fits base m x
    → length (d ∷ ds) ≤ m
few_more d base x ds t few zero h = elim h [ ]
few_more d base x ds t few (suc m) (inl z) = absurd (ground arith)
few_more d base x ds t few (suc m) (inr f) = omega (arith, few m f)

pub digit_loop-IsDigits :
    (digit undigit : ℕ → ℕ) (base n x : ℕ)
    → ((k : ℕ) → k < base → undigit (digit k) ≡ k)
    → 0 < base
    → ((x : ℕ) → (x % base + base * (x / base) ≡ x) × (x % base < base))
    → Fits base n x
    → (ds : List ℕ) × (digit_loop digit base n x ≡ ok ds) × IsDigits digit undigit base x ds
unfolding digit_loop
digit_loop-IsDigits digit undigit base zero x u p m h = elim h [ ]
digit_loop-IsDigits digit undigit base (suc n) x u p m h = elim (Bool-cases (x / base == 0)) [
  | inl t ↦
      let q = (m x).0 in
      let z = (==_iff (x / base) 0).0 t in
      let e = u (x % base) (m x).1 in
      (
        digit (x % base) ∷ [],
        rw t refl,
        record {
          worth = (let q' = subst (λ y. x % base + base * y ≡ x) z q in rw e (omega (arith, q')));
          few = few_one (digit (x % base)) base x;
          digits = ((x % base, (m x).1, refl), tt);
        },
      )
  | inr t ↦
      let fits : Fits base n (x / base) = elim h [ inl z ↦ absurd (ground arith) | inr f ↦ f ] in
      let (ds, r, d) = digit_loop-IsDigits digit undigit base n (x / base) u p m fits in
      let e = u (x % base) (m x).1 in
      (
        digit (x % base) ∷ ds,
        rw (t, r) refl,
        record {
          worth = rw (e, d.worth) (m x).0;
          few = few_more (digit (x % base)) base x ds t d.few;
          digits = ((x % base, (m x).1, refl), d.digits);
        },
      )
]

pub div_mod_ten : (x : ℕ) → (x % 10 + 10 * (x / 10) ≡ x) × (x % 10 < 10)
div_mod_ten x = omega arith

pub div_mod_sixteen : (x : ℕ) → (x % 16 + 16 * (x / 16) ≡ x) × (x % 16 < 16)
div_mod_sixteen x = omega arith

-- A 32-bit number has at most ten decimal digits and eight hexadecimal ones.
pub Fits-ten :
    (n x : ℕ) → x < 2 ^ 32 → Fits 10 (suc (suc (suc (suc (suc (suc (suc (suc (suc (suc n)))))))))) x
Fits-ten n x h = inr (inr (inr (inr (inr (inr (inr (inr (inr (inl (omega arith))))))))))

pub Fits-sixteen :
    (n x : ℕ) → x < 2 ^ 32 → Fits 16 (suc (suc (suc (suc (suc (suc (suc (suc n)))))))) x
Fits-sixteen n x h = inr (inr (inr (inr (inr (inr (inr (inl (omega arith))))))))
