-- ===== src/Proc/Pids.antt =====
-- Process ids in the table of proc.c: no two live slots share one.
use a.Base.{
  ℕ, zero, suc, ◌+◌, ◌<◌, ◌≡◌, refl, sym, ap, ◌∙◌, ◌≢◌, some, List, [], ◌∷◌, map, arith, get_elem?,
  set, All, get_elem?-All,
}
use mathlib.Core.Option.{some-injective}
use a.Kernel.{Kernel, Proc}

abbrev pub pids : Kernel → List ℕ
pids k = map (λ (p : Proc). p.pid) k.procs

-- No number but 0 stands twice in the list.
abbrev pub Unique : List ℕ → Type 0
Unique [] = Unit
Unique (x ∷ xs) = (x ≢ 0 → All (λ y. y ≢ x) xs) × Unique xs

-- Every pid has been handed out, 0 apart, and no two slots have the same pid.
pub record PidsOk (k : Kernel) : Type 0 where
  pub positive : 0 < k.nextpid
  pub below : All (λ x. x < k.nextpid) (pids k)
  pub unique : Unique (pids k)

pub All-set {ℓ κ} :
    {A : Type ℓ} (P : A → Type κ) (xs : List A) (i : ℕ) (v : A)
    → P v
    → All P xs
    → All P (set xs i v)
All-set P [] i v pv h = tt
All-set P (x ∷ xs) zero v pv h = (pv, h.1)
All-set P (x ∷ xs) (suc i) v pv h = (h.0, All-set P xs i v pv h.1)

pub All-mono {ℓ κ μ} :
    {A : Type ℓ} (P : A → Type κ) (Q : A → Type μ) (xs : List A)
    → ((a : A) → P a → Q a)
    → All P xs
    → All Q xs
All-mono P Q [] f h = tt
All-mono P Q (x ∷ xs) f h = (f x h.0, All-mono P Q xs f h.1)

Unique-set_fresh : (xs : List ℕ) (i n : ℕ) → All (λ x. x < n) xs → Unique xs → Unique (set xs i n)
Unique-set_fresh [] i n b u = tt
Unique-set_fresh (x ∷ xs) zero n b u =
    ((λ _. All-mono (λ y. y < n) (λ y. y ≢ n) xs (λ y h. omega arith) b.1), u.1)
Unique-set_fresh (x ∷ xs) (suc i) n b u =
    ((λ nz. All-set (λ y. y ≢ x) xs i n (omega arith) (u.0 nz)), Unique-set_fresh xs i n b.1 u.1)

Unique-set_zero : (xs : List ℕ) (i : ℕ) → Unique xs → Unique (set xs i 0)
Unique-set_zero [] i u = tt
Unique-set_zero (x ∷ xs) zero u = ((λ nz. absurd (nz refl)), u.1)
Unique-set_zero (x ∷ xs) (suc i) u =
    ((λ nz. All-set (λ y. y ≢ x) xs i 0 (λ e. nz (sym e)) (u.0 nz)), Unique-set_zero xs i u.1)

module _ (k k' : Kernel) (h : PidsOk k) where
  -- A step that touches no pid.
  pub PidsOk-same : pids k' ≡ pids k → k'.nextpid ≡ k.nextpid → PidsOk k'
  PidsOk-same e n = record {
    positive = rw n h.positive;
    below = rw (n, e) h.below;
    unique = rw e h.unique;
  }

  -- A slot is given the next pid.
  pub PidsOk-next :
      (i : ℕ) → pids k' ≡ set (pids k) i k.nextpid → k'.nextpid ≡ k.nextpid + 1 → PidsOk k'
  PidsOk-next i e n = record {
    positive = rw n (omega arith);
    below =
        rw (n, e)
          (All-set (λ x. x < k.nextpid + 1) (pids k) i k.nextpid (omega arith)
            (All-mono (λ x. x < k.nextpid) (λ x. x < k.nextpid + 1) (pids k) (λ x l. omega arith)
              h.below));
    unique = rw e (Unique-set_fresh (pids k) i k.nextpid h.below h.unique);
  }

  -- A slot is given back.
  pub PidsOk-clear : (i : ℕ) → pids k' ≡ set (pids k) i 0 → k'.nextpid ≡ k.nextpid → PidsOk k'
  PidsOk-clear i e n = record {
    positive = rw n h.positive;
    below = rw (n, e) (All-set (λ x. x < k.nextpid) (pids k) i 0 h.positive h.below);
    unique = rw e (Unique-set_zero (pids k) i h.unique);
  }

-- A pid that is not 0 names one slot.
pub Unique-index :
    (xs : List ℕ) (i j : ℕ) (x : ℕ)
    → Unique xs
    → get_elem? xs i ≡ some x
    → get_elem? xs j ≡ some x
    → x ≢ 0
    → i ≡ j
Unique-index [] i j x u a b nz = cc
Unique-index (y ∷ ys) zero zero x u a b nz = refl
Unique-index (y ∷ ys) zero (suc j) x u a b nz =
    let e = some-injective y x a in
    absurd (get_elem?-All (λ z. z ≢ y) ys j (u.0 (λ h. nz (sym e ∙ h))) b (sym e))
Unique-index (y ∷ ys) (suc i) zero x u a b nz =
    let e = some-injective y x b in
    absurd (get_elem?-All (λ z. z ≢ y) ys i (u.0 (λ h. nz (sym e ∙ h))) a (sym e))
Unique-index (y ∷ ys) (suc i) (suc j) x u a b nz = ap suc (Unique-index ys i j x u.1 a b nz)
