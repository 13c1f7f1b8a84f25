-- ===== src/Spinlock/Exclusion.antt =====
-- spinlock.c: the claims of the CPUs to the lock through every turn.
use a.Base.{
  ℕ, ◌+◌, ◌-◌, ◌<◌, ◌≡◌, refl, ap, ◌⊎◌, inl, inr, true, false, ◌&&◌, List, [], ◌∷◌, arith, ◌==◌,
  ==_iff, Bool-cases, ok, subst,
}
use a.Spinlock.{
  Place, outside, want, again, spin, taken, inside, leaving, undo, dead, Cpu, Machine, set_cpu,
  goto, pushcli, popcli, holding, Call, acquiring, releasing, acquire_test, exchange, release_test,
  release_end, turn_at, turn, run, initlock,
}
use a.Spinlock.Claims.{
  has, named, marked, IsExclusive, set_cpu-IsExclusive, move-IsExclusive, clash, marked-has,
}

-- Where a turn leads in which a CPU that is free to call something calls release.
abbrev pub Leads : Place → Place → Type 0
Leads want p = p ≡ spin
Leads again p = p ≡ dead
Leads spin p = (p ≡ spin) ⊎ (p ≡ taken)
Leads taken p = p ≡ inside
Leads outside p = p ≡ dead
Leads inside p = p ≡ leaving
Leads leaving p = p ≡ undo
Leads undo p = p ≡ outside
Leads dead p = p ≡ dead

module _ (m : Machine) (i : ℕ) (v : IsExclusive m) where
  abbrev c : Cpu
  c = m.cpus i

  holding-marked : marked c.place ≡ true → has c.place ≡ true → holding i m ≡ true
  holding-marked k h = let e = v.mark i k in let l = v.held i h in rw (l, e) (ground arith)

  holding-named : named c.place ≡ false → holding i m ≡ false
  holding-named n = elim (Bool-cases (m.cpu == i + 1)) [
    | inl t ↦ absurd (clash (named c.place) (v.owner i ((==_iff m.cpu (i + 1)).0 t)) n)
    | inr t ↦ ground arith
  ]

  self : (i == i) ≡ true
  self = ground arith

  pushcli-off : (0 < (pushcli c).ncli) × ((pushcli c).interrupts ≡ false)
  unfolding pushcli
  pushcli-off = (omega arith, refl)

  exchange-IsExclusive : c.place ≡ spin → IsExclusive (exchange i c m)
  unfolding exchange
  exchange-IsExclusive e = elim (Bool-cases m.locked) [
    | inl t ↦ rw t (
        subst (λ l. IsExclusive (set_cpu i (goto spin c) l m.cpu m)) t
          (move-IsExclusive m i (goto spin c) v (λ p. cc) (λ p. absurd (clash _ p (ap named e)))
            (λ p. cc) (λ p. v.off i (rw e refl))))
    | inr t ↦ rw t (
        set_cpu-IsExclusive m i (goto taken c) true m.cpu v (record {
          held_self = λ p. refl;
          held_other = λ j ne p. refl;
          alone = λ p j ne q. clash m.locked (v.held j q) t;
          owner_self = λ q. absurd (clash _ (v.owner i q) (ap named e));
          owner_other = λ j ne q. v.owner j q;
          mark_self = λ p. cc;
          mark_other = λ j ne p. v.mark j p;
          off_self = λ p. v.off i (rw e refl);
        }))
  ]

  note_cpu-IsExclusive :
      c.place ≡ taken → IsExclusive (set_cpu i (goto inside c) m.locked (i + 1) m)
  note_cpu-IsExclusive e = set_cpu-IsExclusive m i (goto inside c) m.locked (i + 1) v (record {
    held_self = λ p. v.held i (rw e refl);
    held_other = λ j ne p. v.held j p;
    alone = λ p j ne q. ne (v.one j i q (rw e refl));
    owner_self = λ q. refl;
    owner_other = λ j ne q. absurd (ne (omega (arith, q)));
    mark_self = λ p. refl;
    mark_other = λ j ne p. absurd (ne (v.one j i (marked-has _ p) (rw e refl)));
    off_self = λ p. v.off i (rw e refl);
  })

  release_test-IsExclusive :
      (named c.place ≡ true → c.place ≡ inside) → IsExclusive (release_test i c m)
  unfolding release_test
  release_test-IsExclusive calls = elim (Bool-cases (holding i m)) [
    | inr t ↦ rw t (move-IsExclusive m i (goto dead c) v (λ p. cc) (λ p. refl) (λ p. cc) (λ p. cc))
    | inl t ↦
        let mine : m.cpu ≡ i + 1 = ground arith in
        let e = calls (v.owner i mine) in
        rw t (
          set_cpu-IsExclusive m i (goto leaving c) m.locked 0 v (record {
            held_self = λ p. v.held i (rw e refl);
            held_other = λ j ne p. v.held j p;
            alone = λ p j ne q. ne (v.one j i q (rw e refl));
            owner_self = λ q. absurd (omega (arith, q));
            owner_other = λ j ne q. absurd (omega (arith, q));
            mark_self = λ p. cc;
            mark_other = λ j ne p. absurd (ne (omega (arith, mine, v.mark j p)));
            off_self = λ p. v.off i (rw e refl);
          }))
  ]

  unlock-IsExclusive : c.place ≡ leaving → IsExclusive (set_cpu i (goto undo c) false m.cpu m)
  unlock-IsExclusive e = set_cpu-IsExclusive m i (goto undo c) false m.cpu v (record {
    held_self = λ p. p;
    held_other = λ j ne p. absurd (ne (v.one j i p (rw e refl)));
    alone = λ p j ne q. cc;
    owner_self = λ q. absurd (clash _ (v.owner i q) (ap named e));
    owner_other = λ j ne q. v.owner j q;
    mark_self = λ p. cc;
    mark_other = λ j ne p. v.mark j p;
    off_self = λ p. v.off i (rw e refl);
  })

  acquire_test-IsExclusive : (c.place ≡ want) ⊎ (c.place ≡ again) → IsExclusive (acquire_test i c m)
  unfolding acquire_test
  acquire_test-IsExclusive (inl e) =
      let free = holding-named (ap named e) in
      rw free (
        move-IsExclusive m i (goto spin c) v (λ p. cc) (λ p. absurd (clash _ p (ap named e)))
          (λ p. cc) (λ p. v.off i (rw e refl)))
  acquire_test-IsExclusive (inr e) =
      let mine = holding-marked (rw e refl) (rw e refl) in
      rw mine (move-IsExclusive m i (goto dead c) v (λ p. cc) (λ p. refl) (λ p. cc) (λ p. cc))

  release_end-ok :
      c.place ≡ undo
      → (c' : Cpu) × (release_end i c m ≡ set_cpu i (goto outside c') m.locked m.cpu m)
  unfolding release_end popcli
  release_end-ok e =
      let (some_pushed, quiet) = v.off i (rw e refl) in
      let z : (c.ncli == 0) ≡ false = ground arith in
      let c' = record c { ncli = c.ncli - 1; interrupts = c.ncli == 1 && c.intena } in
      let popped : popcli c ≡ ok c' = rw (popcli, quiet, z) refl in
      (c', rw (release_end, popped) refl)

  release_end-IsExclusive : c.place ≡ undo → IsExclusive (release_end i c m)
  release_end-IsExclusive e =
      let (c', r) = release_end-ok e in
      rw r (
        move-IsExclusive m i (goto outside c') v (λ p. cc) (λ p. absurd (clash _ p (ap named e)))
          (λ p. cc) (λ p. cc))

  turn_at-IsExclusive : (p : Place) (call : Call) → c.place ≡ p → IsExclusive (turn_at p i call c m)
  unfolding turn_at
  turn_at-IsExclusive outside acquiring e =
      move-IsExclusive m i (goto want (pushcli c)) v (λ p. cc)
        (λ p. absurd (clash _ p (ap named e))) (λ p. cc) (λ p. pushcli-off)
  turn_at-IsExclusive outside releasing e =
      release_test-IsExclusive (λ p. absurd (clash _ p (ap named e)))
  turn_at-IsExclusive inside acquiring e =
      move-IsExclusive m i (goto again (pushcli c)) v (λ p. rw e refl) (λ p. refl) (λ p. rw e refl)
        (λ p. pushcli-off)
  turn_at-IsExclusive inside releasing e = release_test-IsExclusive (λ p. e)
  turn_at-IsExclusive want call e = acquire_test-IsExclusive (inl e)
  turn_at-IsExclusive again call e = acquire_test-IsExclusive (inr e)
  turn_at-IsExclusive spin call e = exchange-IsExclusive e
  turn_at-IsExclusive taken call e = note_cpu-IsExclusive e
  turn_at-IsExclusive leaving call e = unlock-IsExclusive e
  turn_at-IsExclusive undo call e = release_end-IsExclusive e
  turn_at-IsExclusive dead call e = v

  turn_at-Leads : (p : Place) → c.place ≡ p → Leads p ((turn_at p i releasing c m).cpus i).place
  unfolding turn_at acquire_test exchange release_test release_end
  turn_at-Leads outside e = let free = holding-named (ap named e) in rw (free, self) refl
  turn_at-Leads inside e = let mine = holding-marked (rw e refl) (rw e refl) in rw (mine, self) refl
  turn_at-Leads want e = let free = holding-named (ap named e) in rw (free, self) refl
  turn_at-Leads again e = let mine = holding-marked (rw e refl) (rw e refl) in rw (mine, self) refl
  turn_at-Leads spin e = elim (Bool-cases m.locked) [
    | inl t ↦ rw (self, t) (inl refl)
    | inr t ↦ rw (self, t) (inr refl)
  ]
  turn_at-Leads taken e = rw self refl
  turn_at-Leads leaving e = rw self refl
  turn_at-Leads undo e = let (c', r) = release_end-ok e in rw (r, self) refl
  turn_at-Leads dead e = e

initlock-IsExclusive : IsExclusive initlock
initlock-IsExclusive = record {
  one = λ i j p q. cc;
  held = λ i p. cc;
  owner = λ i e. absurd (omega (arith, e));
  mark = λ i p. cc;
  off = λ i p. cc;
}

run_from-IsExclusive : (ts : List (ℕ × Call)) (m : Machine) → IsExclusive m → IsExclusive (run ts m)
unfolding run turn
run_from-IsExclusive [] m v = v
run_from-IsExclusive ((i, call) ∷ ts) m v =
    run_from-IsExclusive ts (turn i call m) (turn_at-IsExclusive m i v (m.cpus i).place call refl)

-- In every interleaving of the calls of any number of CPUs, from the lock as `initlock` leaves it, one CPU
-- at most has the lock; it is locked then, and the CPU's interrupts are off; and `lk->cpu` names no other.
pub run-IsExclusive : (ts : List (ℕ × Call)) → IsExclusive (run ts initlock)
run-IsExclusive ts = run_from-IsExclusive ts initlock initlock-IsExclusive

-- In every interleaving, acquire panics for a CPU that has the lock and for no other, release panics for a
-- CPU that does not have it and for no other, and the `popcli` at the end of release does not panic.
pub turn-Leads :
    (ts : List (ℕ × Call)) (i : ℕ)
    → Leads ((run ts initlock).cpus i).place ((turn i releasing (run ts initlock)).cpus i).place
unfolding turn
turn-Leads ts i =
    let m = run ts initlock in turn_at-Leads m i (run-IsExclusive ts) (m.cpus i).place refl
