-- ===== src/Scheduler/Round.antt =====
-- What one round of the scheduler of proc.c runs, when its processes use up their time slices.
use a.Base.{
  ℕ, ◌-◌, ◌≡◌, true, ◌&&◌, some, List, [], ◌∷◌, ◌++◌, ◌==◌, if◌then◌else◌, get_elem?, modify,
}
use a.Kernel.{Kernel, Proc, runnable, is_runnable, Container, is_waiting, Line, scheduling_line}

-- A process that has its time slice taken by the timer, in `yield`: it is runnable again.
abbrev pub sliced : Kernel → Kernel
sliced k = record k { procs = modify k.procs (k.current - 1) (λ p. record p { state = runnable }) }

-- The ready processes of a container, in the order of the table.
abbrev pub ready_lines : Container → List Proc → List Line
ready_lines c [] = []
ready_lines c (p ∷ ps) =
    if (p.container_id == c.container_id) && is_runnable p.state
    then scheduling_line c.container_id p.pid ∷ ready_lines c ps
    else ready_lines c ps

-- Those of all the containers that are not unused, in the order of their table.
abbrev pub round_lines : List Container → List Proc → List Line
round_lines [] ps = []
round_lines (c ∷ cs) ps =
    if is_waiting c.state then ready_lines c ps ++ round_lines cs ps else round_lines cs ps

module _ (j : ℕ) (c : Container) where
  -- A container of the table whose processes are looked at, with the scheduler's messages on.
  record Scheduling (k : Kernel) : Type 0 where
    at : get_elem? k.conts j ≡ some c
    idle : k.current ≡ 0
    printing : k.scheduler_log ≡ true
