-- ===== src/Spinlock.antt =====
-- spinlock.c: one spin lock and any number of CPUs, which take turns after every access of the lock. The
-- other modules use a lock as a flag of one CPU.
pub mod Claims
pub mod Exclusion
pub mod Progress
use a.Base.{
  ℕ, zero, suc, ◌+◌, ◌-◌, ◌*◌, ◌/◌, ◌%◌, ◌^◌, ◌≤◌, ◌<◌, min, ◌≡◌, refl, sym, ap, ap₂, ◌∙◌, fun_ext,
  ◌≢◌, ◌↔◌, ◌⊎◌, inl, inr, Bool, true, false, ◌&&◌, ◌||◌, not, Option, none, some, List, [], ◌∷◌,
  ◌++◌, map, arith, ltb, leb, ◌==◌, if◌then◌else◌, ==_iff, Bool-cases, Option-cases, length,
  get_elem?, set, take, drop, replicate, modify, All, Outcome, ok, panic, fault, ◌>>=◌, ℤ, pos,
  negsuc, minus_one,
}

-- Where a CPU is: outside of the lock's functions without the lock, or inside with it; in acquire, before
-- the test (`again`, if it has the lock), before the exchange, and with the lock taken but `lk->cpu` not
-- set; in release, with `lk->cpu` cleared, and with the lock given back; or in panic.
pub data Place : Type 0 where
  outside want again spin taken inside leaving undo dead : Place

-- `struct cpu`, with the interrupt flag of the CPU's EFLAGS.
pub record Cpu : Type 0 where
  pub place : Place
  pub ncli : ℕ
  pub intena : Bool
  pub interrupts : Bool

-- The lock, whose `cpu` is the number of the CPU and 1, or 0 for null; and the CPUs.
pub record Machine : Type 0 where
  pub locked : Bool
  pub cpu : ℕ
  pub cpus : ℕ → Cpu

abbrev pub set_cpu : ℕ → Cpu → Bool → ℕ → Machine → Machine
set_cpu i c locked cpu m = record {
  locked = locked;
  cpu = cpu;
  cpus = λ j. if j == i then c else m.cpus j;
}

abbrev pub goto : Place → Cpu → Cpu
goto p c = record c { place = p }

unfoldable pub pushcli : Cpu → Cpu
pushcli c = record c {
  ncli = c.ncli + 1;
  intena = if c.ncli == 0 then c.interrupts else c.intena;
  interrupts = false;
}

unfoldable pub popcli : Cpu → Outcome Cpu
popcli c =
    if c.interrupts
    then panic
    else if c.ncli == 0
    then panic
    else ok (record c { ncli = c.ncli - 1; interrupts = c.ncli == 1 && c.intena })

-- `holding`, whose `pushcli` and `popcli` cancel out. Only CPU `i` writes its own number, so that the two
-- reads give what one access gives.
abbrev pub holding : ℕ → Machine → Bool
holding i m = m.locked && m.cpu == i + 1

-- What a CPU that is not in a function of the lock calls.
pub data Call : Type 0 where
  acquiring releasing : Call

-- The test of `acquire`
unfoldable pub acquire_test : ℕ → Cpu → Machine → Machine
acquire_test i c m = set_cpu i (goto (if holding i m then dead else spin) c) m.locked m.cpu m

-- `xchg(&lk->locked, 1)`, once.
unfoldable pub exchange : ℕ → Cpu → Machine → Machine
exchange i c m = set_cpu i (goto (if m.locked then spin else taken) c) true m.cpu m

-- The test of `release`, and `lk->cpu = 0`.
unfoldable pub release_test : ℕ → Cpu → Machine → Machine
release_test i c m =
    if holding i m
    then set_cpu i (goto leaving c) m.locked 0 m
    else set_cpu i (goto dead c) m.locked m.cpu m

-- `popcli` at the end of `release`
unfoldable pub release_end : ℕ → Cpu → Machine → Machine
unfolding popcli
release_end i c m = elim (popcli c) [
  | ok c' ↦ set_cpu i (goto outside c') m.locked m.cpu m
  | panic ↦ set_cpu i (goto dead c) m.locked m.cpu m
  | fault ↦ set_cpu i (goto dead c) m.locked m.cpu m
]

-- A turn of CPU `i`, where it is; `call` says what it calls if it is free to.
unfoldable pub turn_at : Place → ℕ → Call → Cpu → Machine → Machine
unfolding pushcli acquire_test exchange release_test release_end
turn_at outside i acquiring c m = set_cpu i (goto want (pushcli c)) m.locked m.cpu m
turn_at outside i releasing c m = release_test i c m
turn_at inside i acquiring c m = set_cpu i (goto again (pushcli c)) m.locked m.cpu m
turn_at inside i releasing c m = release_test i c m
turn_at want i call c m = acquire_test i c m
turn_at again i call c m = acquire_test i c m
turn_at spin i call c m = exchange i c m
turn_at taken i call c m = set_cpu i (goto inside c) m.locked (i + 1) m
turn_at leaving i call c m = set_cpu i (goto undo c) false m.cpu m
turn_at undo i call c m = release_end i c m
turn_at dead i call c m = m

unfoldable pub turn : ℕ → Call → Machine → Machine
unfolding turn_at
turn i call m = turn_at (m.cpus i).place i call (m.cpus i) m

-- The turns of a schedule.
unfoldable pub run : List (ℕ × Call) → Machine → Machine
unfolding turn
run [] m = m
run ((i, call) ∷ ts) m = run ts (turn i call m)

-- `initlock`, with all CPUs outside.
abbrev pub initlock : Machine
initlock = record {
  locked = false;
  cpu = 0;
  cpus = λ j. record { place = outside; ncli = 0; intena = false; interrupts = true };
}
