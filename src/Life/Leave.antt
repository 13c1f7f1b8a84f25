-- ===== src/Life/Leave.antt =====
-- `exit` of proc.c.
use a.Base.{ℕ, zero, suc, ◌+◌, ◌==◌, if◌then◌else◌, length, set, modify, Outcome, ok, panic, ◌>>=◌}
use a.Kernel.{Kernel, zombie, is_zombie, acquire_ptable, access, myproc}
use a.Proc.{wakeup1, sched}

-- One step of the loop of `exit` over the table, at slot `i`: a child of `curproc` goes to `init`.
unfoldable pub adopt_slot : ℕ → ℕ → ℕ → Kernel → Outcome Kernel
adopt_slot curproc init i k = do
  p ← access k.procs i
  let k' = record k { procs = modify k.procs i (λ p. record p { parent = init }) }
  if p.parent == curproc then (if is_zombie p.state then ok (wakeup1 init k') else ok k') else ok k

-- That loop, `n` slots from `i` on.
unfoldable pub adopt_loop : ℕ → ℕ → ℕ → ℕ → Kernel → Outcome Kernel
adopt_loop curproc init zero i k = ok k
adopt_loop curproc init (suc n) i k =
    adopt_slot curproc init i k >>= adopt_loop curproc init n (i + 1)

-- The loop of `exit` over the descriptors of slot `i`, `n` of them from `fd` on; `fileclose` is the
-- function of file.c.
unfoldable pub close_loop : (ℕ → Kernel → Outcome Kernel) → ℕ → ℕ → ℕ → Kernel → Outcome Kernel
close_loop fileclose i zero fd k = ok k
close_loop fileclose i (suc n) fd k =
    (do
      p ← access k.procs i
      f ← access p.ofile fd
      if f == 0 then ok k else (do
        k ← fileclose f k
        ok (record k { procs = modify k.procs i (λ p. record p { ofile = set p.ofile fd 0 }) })))
    >>= close_loop fileclose i n (fd + 1)

abbrev pub nofile : ℕ
nofile = 16

-- `exit` does not return: the result is the state in which it switches to the scheduler, for good.
-- `put_cwd` is `begin_op(); iput(cwd); end_op();`.
unfoldable pub exit :
    (ℕ → Kernel → Outcome Kernel) → (ℕ → Kernel → Outcome Kernel) → Kernel → Outcome Kernel
exit fileclose put_cwd k = do
  (i, p) ← myproc k
  if k.current == k.initproc then panic else (do
    k ← close_loop fileclose i nofile 0 k
    p ← access k.procs i
    k ← put_cwd p.cwd k
    k ← acquire_ptable (record k { procs = modify k.procs i (λ p. record p { cwd = 0 }) })
    p ← access k.procs i
    k ← adopt_loop k.current k.initproc (length k.procs) 0 (wakeup1 p.parent k)
    sched (λ k. k) (record k { procs = modify k.procs i (λ p. record p { state = zombie }) }))
