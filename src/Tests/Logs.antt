-- ===== src/Tests/Logs.antt =====
-- The log of log.c at fixed inputs.
use a.Base.{
  ℕ, ◌≡◌, refl, true, false, ◌⊎◌, inr, some, [], ◌∷◌, get_elem?, get_elem?-All, arith, ◌+◌,
}
use a.Log.{begin_op, Log, log_write, commit, recover_from_log, reboot}
use a.Log.Install.{Home, IsOld, IsNew}
use a.Log.Recovery.{recoveries}
use a.Log.Crash.{commit-atomic}
use a.Log.Admission.{
  System, Step, Reachable, start, step, enters, IsAdmitted, Reachable-IsAdmitted,
  Reachable-log_write, Enters,
}

-- a log of two blocks, and power for its first three disk writes
abbrev log0 : Log
log0 = record {
  lock = false;
  start = 2;
  size = 30;
  outstanding = 0;
  committing = true;
  blocks = 40 ∷ 41 ∷ [];
  view = λ b. b + 100;
  dirty = 40 ∷ 41 ∷ [];
  disk = record { block = λ b. b; head = [] };
  power = 3;
}

log0-homes : (i b : ℕ) → get_elem? log0.blocks i ≡ some b → Home 2 2 b
log0-homes i b e =
    get_elem?-All (λ b. Home 2 2 b) log0.blocks i (inr (omega arith), (inr (omega arith), tt)) e

-- It has power enough.
abbrev log1 : Log
log1 = record log0 { power = 10 }

commit-atomic_example :
    IsOld 2 log0.blocks log0.disk.block log0.view
      (recover_from_log (reboot 9 (recoveries (1 ∷ 2 ∷ []) (commit log0)))).disk
    ⊎ IsNew 2 log0.blocks log0.disk.block log0.view
        (recover_from_log (reboot 9 (recoveries (1 ∷ 2 ∷ []) (commit log0)))).disk
commit-atomic_example = commit-atomic log0 refl log0-homes (1 ∷ 2 ∷ []) 9 (omega arith)

abbrev idle : System
idle = record { log = record log0 { committing = false; blocks = []; dirty = [] }; budgets = [] }

idle-IsAdmitted : IsAdmitted idle
idle-IsAdmitted = record {
  unlocked = refl;
  idle = refl;
  room = omega arith;
  counted = refl;
  bounded = tt;
  distinct = tt;
}

abbrev busy : System
busy = record { log = record (idle.log) { outstanding = 1 }; budgets = 10 ∷ [] }

enters_idle : Step idle busy
unfolding begin_op
enters_idle = enters busy.log refl

busy-Reachable : Reachable idle busy
busy-Reachable = step start enters_idle

Reachable-IsAdmitted_example : IsAdmitted busy
Reachable-IsAdmitted_example = Reachable-IsAdmitted idle busy idle-IsAdmitted busy-Reachable

Reachable-log_write_example : Enters 40 busy.log (log_write 40 busy.log)
Reachable-log_write_example =
    Reachable-log_write idle busy 0 9 40 idle-IsAdmitted busy-Reachable refl
