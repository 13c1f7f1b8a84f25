-- ===== src/Spinlock/Progress.antt =====
-- spinlock.c: the turns of a CPU that acquires a free lock and releases it.
use a.Base.{ℕ, ◌+◌, ◌≡◌, refl, ◌∙◌, Bool, true, false, arith, ◌==◌, replicate}
use a.Spinlock.{
  outside, want, spin, taken, inside, leaving, undo, Cpu, Machine, set_cpu, goto, pushcli, popcli,
  Call, acquiring, releasing, acquire_test, exchange, release_test, release_end, turn_at, turn, run,
}

turn-set_cpu :
    (m : Machine) (i : ℕ) (c : Cpu) (locked : Bool) (cpu : ℕ) (call : Call)
    → turn i call (set_cpu i c locked cpu m) ≡ turn_at c.place i call c (set_cpu i c locked cpu m)
unfolding turn
turn-set_cpu m i c locked cpu call = let self : (i == i) ≡ true = ground arith in rw self refl

module _ (m : Machine) (i : ℕ) (e : (m.cpus i).place ≡ outside) (n : (m.cpus i).ncli ≡ 0)
    (f : m.locked ≡ false) where
  abbrev c : Cpu
  c = m.cpus i

  abbrev pushed : Cpu
  pushed = record c { ncli = 1; intena = c.interrupts; interrupts = false }

  m1 : Machine
  m1 = set_cpu i (goto want pushed) false m.cpu m

  m2 : Machine
  m2 = set_cpu i (goto spin pushed) false m.cpu m1

  m3 : Machine
  m3 = set_cpu i (goto taken pushed) true m.cpu m2

  m4 : Machine
  m4 = set_cpu i (goto inside pushed) true (i + 1) m3

  step1 : turn i acquiring m ≡ m1
  unfolding turn turn_at pushcli m1
  step1 = rw (e, n, f) refl

  step2 : turn i acquiring m1 ≡ m2
  unfolding turn_at acquire_test m1 m2
  step2 = turn-set_cpu m i (goto want pushed) false m.cpu acquiring

  step3 : turn i acquiring m2 ≡ m3
  unfolding turn_at exchange m2 m3
  step3 = turn-set_cpu m1 i (goto spin pushed) false m.cpu acquiring

  step4 : turn i acquiring m3 ≡ m4
  unfolding turn_at m3 m4
  step4 = turn-set_cpu m2 i (goto taken pushed) true m.cpu acquiring

  m5 : Machine
  m5 = set_cpu i (goto leaving pushed) true 0 m4

  m6 : Machine
  m6 = set_cpu i (goto undo pushed) false 0 m5

  m7 : Machine
  m7 = set_cpu i (record c { place = outside; ncli = 0; intena = c.interrupts }) false 0 m6

  step5 : turn i releasing m4 ≡ m5
  unfolding turn_at release_test m4 m5
  step5 =
      let self : (i + 1 == i + 1) ≡ true = ground arith in
      turn-set_cpu m3 i (goto inside pushed) true (i + 1) releasing ∙ rw self refl

  step6 : turn i releasing m5 ≡ m6
  unfolding turn_at m5 m6
  step6 = turn-set_cpu m4 i (goto leaving pushed) true 0 releasing

  step7 : turn i releasing m6 ≡ m7
  unfolding turn_at release_end popcli m6 m7
  step7 = turn-set_cpu m5 i (goto undo pushed) false 0 releasing

  four_turns : run (replicate 4 (i, acquiring)) m ≡ m4
  unfolding run
  four_turns = rw (step1, step2, step3, step4) refl

  three_turns : run (replicate 3 (i, releasing)) m4 ≡ m7
  unfolding run
  three_turns = rw (step5, step6, step7) refl

  -- A CPU outside, with no `pushcli` open, that acquires a free lock has it after four turns with no other
  -- CPU between, and three turns of release give it back; the interrupts of the CPU are then as they were.
  pub acquire-release :
      (held : Machine) × (run (replicate 4 (i, acquiring)) m ≡ held)
      × ((held.cpus i).place ≡ inside)
      × (held.locked ≡ true)
      × (held.cpu ≡ i + 1)
      × ((back : Machine) × (run (replicate 3 (i, releasing)) held ≡ back)
          × ((back.cpus i).place ≡ outside)
          × ((back.cpus i).ncli ≡ 0)
          × ((back.cpus i).interrupts ≡ (m.cpus i).interrupts)
          × (back.locked ≡ false))
  unfolding m4 m7
  acquire-release =
      let self : (i == i) ≡ true = ground arith in
      (
        m4,
        four_turns,
        rw self refl,
        refl,
        refl,
        (m7, three_turns, rw self refl, rw self refl, rw self refl, refl),
      )
