-- ===== src/Base/Outcomes.antt =====
-- What a run of kernel code comes to, and C `int` results.
use Prim.Native.Nat.{ℕ}
use mathlib.Core.Path.{◌≡◌, refl}
use mathlib.Core.Bool.{Bool, true, false}
use a.Base.Tests.{if◌then◌else◌}

-- `panic` is a call of the kernel's `panic`, which never returns. `fault` is an access outside an
-- array or through a null pointer, which C leaves undefined.
pub data Outcome {ℓ} (A : Type ℓ) : Type ℓ where
  ok : A → Outcome A
  panic : Outcome A
  fault : Outcome A

infixl 5 ◌>>=◌
abbrev pub ◌>>=◌ {ℓ κ} : {A : Type ℓ} {B : Type κ} → Outcome A → (A → Outcome B) → Outcome B
ok a >>= f = f a
panic >>= f = panic
fault >>= f = fault

-- `negsuc n` is -(n + 1).
pub data ℤ : Type 0 where
  pos : ℕ → ℤ
  negsuc : ℕ → ℤ

abbrev pub minus_one : ℤ
minus_one = negsuc 0

-- The code panics, or ends in a result of which `P` holds.
unfoldable pub Post {ℓ} : {A : Type ℓ} → (A → Type 0) → Outcome A → Type 0
Post P (ok a) = P a
Post P panic = Unit
Post P fault = ⊥

pub Post-ok {ℓ} : {A : Type ℓ} (P : A → Type 0) (a : A) → P a → Post P (ok a)
unfolding Post
Post-ok P a h = h

pub Post-panic {ℓ} : {A : Type ℓ} (P : A → Type 0) → Post P panic
unfolding Post
Post-panic P = tt

pub Post-bind {ℓ κ} :
    {A : Type ℓ} {B : Type κ} (P : A → Type 0) (Q : B → Type 0) (o : Outcome A) (f : A → Outcome B)
    → Post P o
    → ((a : A) → P a → Post Q (f a))
    → Post Q (o >>= f)
unfolding Post
Post-bind P Q (ok a) f h g = g a h
Post-bind P Q panic f h g = tt
Post-bind P Q fault f h g = elim h [ ]

pub Post-elim {ℓ} :
    {A : Type ℓ} (P : A → Type 0) (b : Bool) (x y : Outcome A)
    → (b ≡ true → Post P x)
    → (b ≡ false → Post P y)
    → Post P (elim b [ true ↦ x | false ↦ y ])
Post-elim P true x y h g = h refl
Post-elim P false x y h g = g refl

pub Post-if {ℓ} :
    {A : Type ℓ} (P : A → Type 0) (b : Bool) (x y : Outcome A)
    → (b ≡ true → Post P x)
    → (b ≡ false → Post P y)
    → Post P (if b then x else y)
Post-if P true x y h g = h refl
Post-if P false x y h g = g refl

pub Post-weaken {ℓ} :
    {A : Type ℓ} (P Q : A → Type 0) (o : Outcome A) → ((a : A) → P a → Q a) → Post P o → Post Q o
unfolding Post
Post-weaken P Q (ok a) f h = f a h
Post-weaken P Q panic f h = tt
Post-weaken P Q fault f h = h
