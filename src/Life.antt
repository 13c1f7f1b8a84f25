-- ===== src/Life.antt =====
-- Ends of processes in proc.c: wait and exit.
pub mod Reap
pub mod Leave
pub mod Adopt
pub mod Closing
pub mod Exit
use a.Base.{
  ℕ, zero, suc, ◌+◌, ◌-◌, ◌*◌, ◌/◌, ◌%◌, ◌^◌, ◌≤◌, ◌<◌, min, ◌≡◌, refl, sym, ap, ap₂, ◌∙◌, fun_ext,
  ◌≢◌, ◌↔◌, ◌⊎◌, inl, inr, Bool, true, false, ◌&&◌, ◌||◌, not, Option, none, some, List, [], ◌∷◌,
  ◌++◌, map, arith, ltb, leb, ◌==◌, if◌then◌else◌, ==_iff, Bool-cases, Option-cases, length,
  get_elem?, set, take, drop, replicate, modify, All, Outcome, ok, panic, fault, ◌>>=◌, ℤ, pos,
  negsuc, minus_one,
}
use a.Kalloc.{Kmem, kfree}
use a.Kernel.{
  Kernel, Proc, ProcState, unused, embryo, sleeping, runnable, running, zombie, is_unused,
  is_sleeping, is_runnable, is_running, is_zombie, acquire_ptable, release_ptable, acquire_ctable,
  release_ctable, acquire_ticks, release_ticks, access, myproc, print, proc_ptr, Container,
  ContainerState, crunning, cwaiting, cunused, is_waiting, PgElement, Line, ps_line, present_line,
  added_line, mapping_line, pid_line, no_container_line, non_existent_line, scheduling_line,
}
use a.Proc.{LockName, ptable_name, sleep}

-- What the scan of the table in `wait` finds: a zombie child, or whether there are children.
pub data Scan : Type 0 where
  zombie_child : (i : ℕ) (p : Proc) → Scan
  have_kids : Bool → Scan

-- That scan, from slot `i` on, for the process `curproc`.
unfoldable pub scan_loop : ℕ → List Proc → ℕ → Bool → Scan
scan_loop curproc [] i kids = have_kids kids
scan_loop curproc (p ∷ ps) i kids =
    if not (p.parent == curproc)
    then scan_loop curproc ps (i + 1) kids
    else if is_zombie p.state
    then zombie_child i p
    else scan_loop curproc ps (i + 1) true

-- `p->name[0] = 0` and the other fields that `wait` clears.
abbrev pub clear_slot : Proc → Proc
clear_slot p = record p {
  kstack = 0;
  pid = 0;
  parent = 0;
  name = set p.name 0 0;
  killed = false;
  state = unused;
}

-- One round of the endless loop of `wait`: it returns the pid of a dead child, returns -1, or has slept
-- and goes round again.
pub data WaitEnd : Type 0 where
  reaped : (pid : ℕ) → Kernel → WaitEnd
  no_children : Kernel → WaitEnd
  again : Kernel → WaitEnd

-- `freevm` is the function of vm.c, which gives the pages of a page table back to the allocator;
-- `others` what runs while `wait` sleeps.
unfoldable pub wait_round : (ℕ → Kmem → Outcome Kmem) → (Kernel → Kernel) → Kernel → Outcome WaitEnd
wait_round freevm others k = do
  (me, curproc) ← myproc k
  elim (scan_loop k.current k.procs 0 false) [
    | zombie_child i p ↦ (do
      m ← kfree p.kstack k.kmem
      m ← freevm p.pgdir m
      k ← release_ptable (record k { kmem = m; procs = modify k.procs i clear_slot })
      ok (reaped p.pid k))
    | have_kids kids ↦
        if not kids || curproc.killed
        then release_ptable k >>= (λ k. ok (no_children k))
        else sleep others k.current ptable_name k >>= (λ k. ok (again k))
  ]

-- `wait`, to its return or through its first sleep.
unfoldable pub wait : (ℕ → Kmem → Outcome Kmem) → (Kernel → Kernel) → Kernel → Outcome WaitEnd
wait freevm others k = acquire_ptable k >>= wait_round freevm others
