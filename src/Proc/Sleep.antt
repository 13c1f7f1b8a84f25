-- ===== src/Proc/Sleep.antt =====
-- `sleep`, `yield` and `sched` of proc.c: the locks held over a switch.
use a.Base.{
  get_elem?-modify_self, ℕ, suc, ◌+◌, ◌≡◌, refl, true, false, some, arith, get_elem?, modify, ok,
  panic,
}
use a.Kernel.{Kernel, Proc}
use a.Proc.{LockName, null_lock, ptable_name, ticks_name, asleep, sleep}

-- The CPU holds the lock that `lk` names and no other.
abbrev pub HoldsOnly : LockName → Kernel → Type 0
HoldsOnly null_lock k = ⊥
HoldsOnly ptable_name k = (k.ptable_lock ≡ true) × (k.tickslock ≡ false) × (k.ncli ≡ 1)
HoldsOnly ticks_name k = (k.ptable_lock ≡ false) × (k.tickslock ≡ true) × (k.ncli ≡ 1)

-- The state in which `sleep` switches to the scheduler: the process is SLEEPING on `chan`, and
-- `ptable.lock` is the only lock held, so that a `wakeup` cannot have come in between.
abbrev pub at_switch : ℕ → ℕ → Kernel → Kernel
at_switch i chan k = record k {
  ptable_lock = true;
  tickslock = false;
  ncli = 1;
  procs = modify k.procs i (asleep chan);
}

module _ (others : Kernel → Kernel) (chan i : ℕ) (p : Proc) (k : Kernel) (cur : k.current ≡ suc i)
    (at : get_elem? k.procs i ≡ some p) where
  -- Called with one lock, `sleep` switches in the state `at_switch`. If it is resumed with
  -- `ptable.lock` alone held, as the scheduler does, it clears the channel and returns with the lock
  -- it was called with, and only that.
  pub sleep_lem :
      (lk : LockName)
      → HoldsOnly lk k
      → HoldsOnly ptable_name (others (at_switch i chan k))
      → (k' : Kernel) × (sleep others chan lk k ≡ ok k')
        × HoldsOnly lk k'
        × (k'.procs ≡ modify (others (at_switch i chan k)).procs i (λ q. record q { chan = 0 }))
  unfolding sleep
  sleep_lem null_lock h r = elim h [ ]
  sleep_lem ptable_name h r = (
    record (others (at_switch i chan k)) {
      procs = modify (others (at_switch i chan k)).procs i (λ q. record q { chan = 0 });
    },
    ground (arith, get_elem?-modify_self k.procs i (asleep chan) at),
    r,
    refl,
  )
  sleep_lem ticks_name h r = (
    record (others (at_switch i chan k)) {
      ptable_lock = false;
      tickslock = true;
      ncli = 1;
      procs = modify (others (at_switch i chan k)).procs i (λ q. record q { chan = 0 });
    },
    ground (arith, get_elem?-modify_self k.procs i (asleep chan) at),
    (refl, refl, refl),
    refl,
  )

  -- With another lock still held `sleep` panics, rather than switch.
  pub sleep-two_locks :
      (n : ℕ)
      → k.ptable_lock ≡ false
      → k.tickslock ≡ true
      → k.ncli ≡ n + 2
      → sleep others chan ticks_name k ≡ panic
  unfolding sleep
  sleep-two_locks n a b c = ground (arith, get_elem?-modify_self k.procs i (asleep chan) at)
