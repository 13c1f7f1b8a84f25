-- ===== src/Scheduler.antt =====
-- The scheduler of proc.c, which runs the processes container by container.
pub mod Round
use a.Base.{
  ℕ, zero, suc, ◌+◌, ◌-◌, ◌*◌, ◌/◌, ◌%◌, ◌^◌, ◌≤◌, ◌<◌, min, ◌≡◌, refl, sym, ap, ap₂, ◌∙◌, fun_ext,
  ◌≢◌, ◌↔◌, ◌⊎◌, inl, inr, Bool, true, false, ◌&&◌, ◌||◌, not, Option, none, some, List, [], ◌∷◌,
  ◌++◌, map, arith, ltb, leb, ◌==◌, if◌then◌else◌, ==_iff, Bool-cases, Option-cases, length,
  get_elem?, set, take, drop, replicate, modify, All, Outcome, ok, panic, fault, ◌>>=◌, ℤ, pos,
  negsuc, minus_one,
}
use a.Kernel.{
  Kernel, Proc, ProcState, unused, embryo, sleeping, runnable, running, zombie, is_unused,
  is_sleeping, is_runnable, is_running, is_zombie, acquire_ptable, release_ptable, acquire_ctable,
  release_ctable, acquire_ticks, release_ticks, access, myproc, print, proc_ptr, Container,
  ContainerState, crunning, cwaiting, cunused, is_waiting, PgElement, Line, ps_line, present_line,
  added_line, mapping_line, pid_line, no_container_line, non_existent_line, scheduling_line,
}

-- The body of the inner loop of `scheduler`, at slot `i`, with `con` the container at place `j`. `run` is
-- what this CPU does from the switch to the process until it switches back in `sched`.
unfoldable pub schedule_slot : (Kernel → Kernel) → ℕ → ℕ → Kernel → Outcome Kernel
schedule_slot run j i k = do
  c ← access k.conts j
  p ← access k.procs i
  if p.container_id == c.container_id && is_runnable p.state
      then (do
        let k = record k {
          current = proc_ptr i;
          procs = modify k.procs i (λ p. record p { state = running });
        }
        let k = if k.scheduler_log then print (scheduling_line c.container_id p.pid) k else k
        ok (record (run k) { current = 0 }))
      else ok k

-- That loop, `n` slots from `i` on.
unfoldable pub slot_loop : (Kernel → Kernel) → ℕ → ℕ → ℕ → Kernel → Outcome Kernel
slot_loop run j zero i k = ok k
slot_loop run j (suc n) i k = schedule_slot run j i k >>= slot_loop run j n (i + 1)

-- The body of the loop over the containers, at place `j`.
unfoldable pub schedule_container : (Kernel → Kernel) → ℕ → Kernel → Outcome Kernel
unfolding acquire_ptable release_ptable
schedule_container run j k = do
  c ← access k.conts j
  if is_waiting c.state
      then (do k ← acquire_ptable k; k ← slot_loop run j (length k.procs) 0 k; release_ptable k)
      else ok k

-- That loop, `n` containers from `j` on.
unfoldable pub container_loop : (Kernel → Kernel) → ℕ → ℕ → Kernel → Outcome Kernel
container_loop run zero j k = ok k
container_loop run (suc n) j k = schedule_container run j k >>= container_loop run n (j + 1)

-- One round of the endless loop of `scheduler`.
unfoldable pub scheduler_round : (Kernel → Kernel) → Kernel → Outcome Kernel
scheduler_round run k = container_loop run (length k.conts) 0 k
