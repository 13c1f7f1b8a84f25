-- ===== src/Tests/Processes.antt =====
-- The process table of proc.c at fixed inputs.
use a.Base.{◌≡◌, refl, true, modify, ok}
use a.Kernel.{Kernel, running}
use a.Proc.{sleep, ticks_name}
use a.Proc.Sleep.{HoldsOnly, at_switch, sleep_lem}
use a.Tests.Data.{kernel1, sleeper}

-- what another process does meanwhile: it wakes the sleeper up, and the scheduler runs it
abbrev woken : Kernel → Kernel
woken k = record k { procs = modify k.procs 1 (λ p. record p { state = running }) }

abbrev in_sys_sleep : Kernel
in_sys_sleep = record kernel1 { tickslock = true; ncli = 1 }

sleep_lem_example :
    (k' : Kernel) × (sleep woken 700 ticks_name in_sys_sleep ≡ ok k')
    × HoldsOnly ticks_name k'
    × (k'.procs
        ≡ modify (woken (at_switch 1 700 in_sys_sleep)).procs 1 (λ q. record q { chan = 0 }))
sleep_lem_example =
    sleep_lem woken 700 1 (record sleeper { state = running }) in_sys_sleep refl refl ticks_name
      (refl, refl, refl) (refl, refl, refl)
