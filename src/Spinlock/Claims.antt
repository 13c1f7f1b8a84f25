-- ===== src/Spinlock/Claims.antt =====
-- spinlock.c: which CPU has a claim to the lock, and what a CPU may do without breaking the others'.
use a.Base.{
  ℕ, ◌+◌, ◌<◌, ◌≡◌, refl, sym, ◌∙◌, ◌≢◌, inl, inr, Bool, true, false, arith, ◌==◌, ==_iff,
  Bool-cases,
}
use a.Spinlock.{
  Place, outside, want, again, spin, taken, inside, leaving, undo, dead, Cpu, Machine, set_cpu,
}

-- The CPU has the lock.
abbrev pub has : Place → Bool
has taken = true
has inside = true
has again = true
has leaving = true
has outside = false
has want = false
has spin = false
has undo = false
has dead = false

-- The lock may name the CPU, and does.
abbrev pub named : Place → Bool
named inside = true
named again = true
named dead = true
named taken = false
named leaving = false
named outside = false
named want = false
named spin = false
named undo = false

abbrev pub marked : Place → Bool
marked inside = true
marked again = true
marked dead = false
marked taken = false
marked leaving = false
marked outside = false
marked want = false
marked spin = false
marked undo = false

-- The CPU is between `pushcli` and `popcli`.
abbrev pub busy : Place → Bool
busy outside = false
busy dead = false
busy want = true
busy again = true
busy spin = true
busy taken = true
busy inside = true
busy leaving = true
busy undo = true

pub record IsExclusive (m : Machine) : Type 0 where
  pub one : (i j : ℕ) → has (m.cpus i).place ≡ true → has (m.cpus j).place ≡ true → i ≡ j
  pub held : (i : ℕ) → has (m.cpus i).place ≡ true → m.locked ≡ true
  pub owner : (i : ℕ) → m.cpu ≡ i + 1 → named (m.cpus i).place ≡ true
  pub mark : (i : ℕ) → marked (m.cpus i).place ≡ true → m.cpu ≡ i + 1
  pub off :
      (i : ℕ)
      → busy (m.cpus i).place ≡ true
      → (0 < (m.cpus i).ncli) × ((m.cpus i).interrupts ≡ false)

-- What CPU `i` may do to itself and the lock.
pub record Allowed (m : Machine) (i : ℕ) (c : Cpu) (locked : Bool) (cpu : ℕ) : Type 0 where
  pub held_self : has c.place ≡ true → locked ≡ true
  pub held_other : (j : ℕ) → j ≢ i → has (m.cpus j).place ≡ true → locked ≡ true
  pub alone : has c.place ≡ true → (j : ℕ) → j ≢ i → has (m.cpus j).place ≡ true → ⊥
  pub owner_self : cpu ≡ i + 1 → named c.place ≡ true
  pub owner_other : (j : ℕ) → j ≢ i → cpu ≡ j + 1 → named (m.cpus j).place ≡ true
  pub mark_self : marked c.place ≡ true → cpu ≡ i + 1
  pub mark_other : (j : ℕ) → j ≢ i → marked (m.cpus j).place ≡ true → cpu ≡ j + 1
  pub off_self : busy c.place ≡ true → (0 < c.ncli) × (c.interrupts ≡ false)

pub set_cpu-IsExclusive :
    (m : Machine) (i : ℕ) (c : Cpu) (locked : Bool) (cpu : ℕ)
    → IsExclusive m
    → Allowed m i c locked cpu
    → IsExclusive (set_cpu i c locked cpu m)
set_cpu-IsExclusive m i c locked cpu v a = record {
  one = λ j k. elim (Bool-cases (j == i)) [
    | inl t ↦ elim (Bool-cases (k == i)) [
      | inl u ↦ λ p q. (==_iff j i).0 t ∙ sym ((==_iff k i).0 u)
      | inr u ↦ rw (t, u) (λ p q. absurd (a.alone p k (ground arith) q))
    ]
    | inr t ↦ elim (Bool-cases (k == i)) [
      | inl u ↦ rw (t, u) (λ p q. absurd (a.alone q j (ground arith) p))
      | inr u ↦ rw (t, u) (v.one j k)
    ]
  ];
  held = λ j. elim (Bool-cases (j == i)) [
    | inl t ↦ rw t a.held_self
    | inr t ↦ rw t (a.held_other j (ground arith))
  ];
  owner = λ j. elim (Bool-cases (j == i)) [
    | inl t ↦ rw t (let e = (==_iff j i).0 t in rw e a.owner_self)
    | inr t ↦ rw t (a.owner_other j (ground arith))
  ];
  mark = λ j. elim (Bool-cases (j == i)) [
    | inl t ↦ rw t (let e = (==_iff j i).0 t in rw e a.mark_self)
    | inr t ↦ rw t (a.mark_other j (ground arith))
  ];
  off = λ j. elim (Bool-cases (j == i)) [ inl t ↦ rw t a.off_self | inr t ↦ rw t (v.off j) ];
}

-- A move that leaves the lock as it is, and gives the CPU no claim to it.
pub move-IsExclusive :
    (m : Machine) (i : ℕ) (c : Cpu)
    → IsExclusive m
    → (has c.place ≡ true → has (m.cpus i).place ≡ true)
    → (named (m.cpus i).place ≡ true → named c.place ≡ true)
    → (marked c.place ≡ true → marked (m.cpus i).place ≡ true)
    → (busy c.place ≡ true → (0 < c.ncli) × (c.interrupts ≡ false))
    → IsExclusive (set_cpu i c m.locked m.cpu m)
move-IsExclusive m i c v h n k o = set_cpu-IsExclusive m i c m.locked m.cpu v (record {
  held_self = λ p. v.held i (h p);
  held_other = λ j ne p. v.held j p;
  alone = λ p j ne q. ne (v.one j i q (h p));
  owner_self = λ e. n (v.owner i e);
  owner_other = λ j ne e. v.owner j e;
  mark_self = λ p. v.mark i (k p);
  mark_other = λ j ne p. v.mark j p;
  off_self = o;
})

pub clash : (b : Bool) → b ≡ true → b ≡ false → ⊥
clash true p q = cc
clash false p q = cc

pub marked-has : (p : Place) → marked p ≡ true → has p ≡ true
marked-has inside e = refl
marked-has again e = refl
marked-has taken e = refl
marked-has leaving e = refl
marked-has dead e = cc
marked-has outside e = cc
marked-has want e = cc
marked-has spin e = cc
marked-has undo e = cc
