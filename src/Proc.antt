-- ===== src/Proc.antt =====
-- proc.c: slots of the process table, waking, killing, and giving up the CPU.
pub mod Pids
pub mod Alloc
pub mod Wake
pub mod Kill
pub mod Sleep
pub mod Grow
use a.Base.{
  ℕ, zero, suc, ◌+◌, ◌-◌, ◌*◌, ◌/◌, ◌%◌, ◌^◌, ◌≤◌, ◌<◌, min, ◌≡◌, refl, sym, ap, ap₂, ◌∙◌, fun_ext,
  ◌≢◌, ◌↔◌, ◌⊎◌, inl, inr, Bool, true, false, ◌&&◌, ◌||◌, not, Option, none, some, List, [], ◌∷◌,
  ◌++◌, map, arith, ltb, leb, ◌==◌, if◌then◌else◌, ==_iff, Bool-cases, Option-cases, length,
  get_elem?, set, take, drop, replicate, modify, All, Outcome, ok, panic, fault, ◌>>=◌, ℤ, pos,
  negsuc, minus_one,
}
use a.Kalloc.{Kmem, kalloc, store}
use a.Kernel.{
  Kernel, Proc, ProcState, unused, embryo, sleeping, runnable, running, zombie, is_unused,
  is_sleeping, is_runnable, is_running, is_zombie, acquire_ptable, release_ptable, acquire_ctable,
  release_ctable, acquire_ticks, release_ticks, access, myproc, print, proc_ptr, Container,
  ContainerState, crunning, cwaiting, cunused, is_waiting, PgElement, Line, ps_line, present_line,
  added_line, mapping_line, pid_line, no_container_line, non_existent_line, scheduling_line,
}
use mathlib.Core.Option

-- The `for` loop of `allocproc`: the first slot whose state is UNUSED.
unfoldable pub find_unused : List Proc → ℕ → Option ℕ
find_unused [] i = none
find_unused (p ∷ ps) i = if is_unused p.state then some i else find_unused ps (i + 1)

abbrev pub kstack_size : ℕ
kstack_size = 4096

-- `sizeof(struct trapframe)` and `sizeof(struct context)`, as x86.h and proc.h lay them out.
abbrev pub trapframe_size : ℕ
trapframe_size = 76

abbrev pub context_size : ℕ
context_size = 20

-- Where `allocproc` puts the trap frame and the context on a kernel stack.
abbrev pub tf_of : ℕ → ℕ
tf_of kstack = kstack + kstack_size - trapframe_size

abbrev pub context_of : ℕ → ℕ
context_of kstack = tf_of kstack - 4 - context_size

-- `memset(p->context, 0, sizeof *p->context)`, on words.
abbrev pub zero_context : (ℕ → ℕ) → ℕ → ℕ → ℕ
zero_context word c a = if leb c a && ltb a (c + context_size) then 0 else word a

-- The words that `allocproc` writes on a new kernel stack: the return address `trapret`, and a context
-- that is zero but for its `eip`, at offset 16, which is `forkret`.
unfoldable pub new_stack : Kernel → ℕ → Kernel
new_stack k kstack = record k {
  kmem = record (k.kmem) {
    word =
        store (zero_context (store k.kmem.word (tf_of kstack - 4) k.trapret) (context_of kstack))
          (context_of kstack + 16) k.forkret;
  };
}

abbrev pub embryo_of : ℕ → Proc → Proc
embryo_of pid p = record p { state = embryo; pid = pid; container_id = 0 }

-- What follows the label `found` of `allocproc`, at slot `i`.
unfoldable pub init_slot : ℕ → Kernel → Outcome (ℕ × Kernel)
unfolding release_ptable new_stack
init_slot i k = do
  k ← release_ptable (record k {
    procs = modify k.procs i (embryo_of k.nextpid);
    nextpid = (k.nextpid + 1) % 2 ^ 32;
  })
  (page, m) ← kalloc k.kmem
  if page == 0
      then ok (
        0,
        record k {
          kmem = m;
          procs = modify k.procs i (λ p. record p { kstack = 0; state = unused });
        },
      )
      else ok (
        proc_ptr i,
        record (new_stack (record k { kmem = m }) page) {
          procs =
              modify k.procs i
                (λ p. record p { kstack = page; tf = tf_of page; context = context_of page });
        },
      )

-- `allocproc`: the pointer to the new process, or null.
unfoldable pub allocproc : Kernel → Outcome (ℕ × Kernel)
unfolding acquire_ptable release_ptable find_unused init_slot
allocproc k = do
  k ← acquire_ptable k
  elim (find_unused k.procs 0) [
    | none ↦ release_ptable k >>= λ k. ok (0, k)
    | some i ↦ init_slot i k
  ]

-- The body of the loop of `wakeup1`.
abbrev pub wake : ℕ → Proc → Proc
wake chan p = if is_sleeping p.state && (p.chan == chan) then record p { state = runnable } else p

unfoldable pub wakeup1 : ℕ → Kernel → Kernel
wakeup1 chan k = record k { procs = map (wake chan) k.procs }

unfoldable pub wakeup : ℕ → Kernel → Outcome Kernel
unfolding acquire_ptable release_ptable wakeup1
wakeup chan k = do k ← acquire_ptable k; release_ptable (wakeup1 chan k)

-- What `kill` does to the process that it finds.
abbrev pub mark_killed : Proc → Proc
mark_killed p = record p {
  killed = true;
  container_id = 0;
  state = if is_sleeping p.state then runnable else p.state;
}

-- The loop of `kill`: the table with the first process of that pid marked, or `none`.
unfoldable pub kill_loop : ℕ → List Proc → Option (List Proc)
kill_loop pid [] = none
kill_loop pid (p ∷ ps) =
    let rest = kill_loop pid ps in
    if p.pid == pid then some (mark_killed p ∷ ps) else Option.map (λ qs. p ∷ qs) rest

unfoldable pub kill : ℕ → Kernel → Outcome (ℤ × Kernel)
unfolding acquire_ptable release_ptable kill_loop
kill pid k = do
  k ← acquire_ptable k
  elim (kill_loop pid k.procs) [
    | none ↦ release_ptable k >>= λ k. ok (minus_one, k)
    | some ps ↦ release_ptable (record k { procs = ps }) >>= λ k. ok (pos 0, k)
  ]

-- `sched`, with its checks (interrupts are off while `ncli` is not 0). `others` is all that the CPU
-- does from the switch to the scheduler until this process is switched to again.
unfoldable pub sched : (Kernel → Kernel) → Kernel → Outcome Kernel
unfolding myproc
sched others k = do
  (i, p) ← myproc k
  if not k.ptable_lock
      then panic
      else if not (k.ncli == 1)
      then panic
      else if is_running p.state
      then panic
      else ok (others k)

unfoldable pub yield : (Kernel → Kernel) → Kernel → Outcome Kernel
unfolding acquire_ptable release_ptable myproc sched
yield others k = do
  k ← acquire_ptable k
  (i, p) ← myproc k
  k ← sched others (record k { procs = modify k.procs i (λ p. record p { state = runnable }) })
  release_ptable k

-- The locks that `sleep` is called with in proc.c and sysproc.c; `null_lock` is a null pointer.
pub data LockName : Type 0 where
  null_lock ptable_name ticks_name : LockName

-- `if(lk != &ptable.lock){ acquire(&ptable.lock); release(lk); }`
unfoldable pub swap_in : LockName → Kernel → Outcome Kernel
unfolding acquire_ptable release_ticks
swap_in null_lock k = panic
swap_in ptable_name k = ok k
swap_in ticks_name k = acquire_ptable k >>= release_ticks

-- `if(lk != &ptable.lock){ release(&ptable.lock); acquire(lk); }`
unfoldable pub swap_out : LockName → Kernel → Outcome Kernel
unfolding release_ptable acquire_ticks
swap_out null_lock k = panic
swap_out ptable_name k = ok k
swap_out ticks_name k = release_ptable k >>= acquire_ticks

abbrev pub asleep : ℕ → Proc → Proc
asleep chan p = record p { chan = chan; state = sleeping }

-- `sleep(chan, lk)`. A null `myproc()` or `lk` panics.
unfoldable pub sleep : (Kernel → Kernel) → ℕ → LockName → Kernel → Outcome Kernel
unfolding myproc swap_in swap_out sched
sleep others chan lk k = if k.current == 0 then panic else do
  (i, p) ← myproc k
  k ← swap_in lk k
  k ← sched others (record k { procs = modify k.procs i (asleep chan) })
  swap_out lk (record k { procs = modify k.procs i (λ p. record p { chan = 0 }) })
