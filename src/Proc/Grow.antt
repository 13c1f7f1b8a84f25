-- ===== src/Proc/Grow.antt =====
-- growproc of proc.c: the size of the running process, with vm.c.
use a.Base.{
  ℕ, zero, suc, ◌+◌, ◌-◌, ◌%◌, ◌^◌, ◌==◌, if◌then◌else◌, Option, none, some, modify, Outcome, ok,
  panic, ◌>>=◌, ℤ, pos, negsuc, minus_one,
}
use a.Kernel.{Kernel, Proc, myproc}
use a.Kalloc.{Kmem}
use a.Vm.Space.{allocuvm, deallocuvm}

-- The new size, or `none` where growproc gives up. A size is 32 bits wide, and 0 counts as failure.
unfoldable pub resize : ℤ → Proc → Kmem → Outcome (Option ℕ × Kmem)
resize (pos zero) p m = ok (some p.sz, m)
resize (pos (suc n)) p m = do
  (sz, m) ← allocuvm p.pgdir p.sz ((p.sz + suc n) % 2 ^ 32) m
  ok (if sz == 0 then none else some sz, m)
resize (negsuc n) p m = do
  (sz, m) ← deallocuvm p.pgdir p.sz ((p.sz + 2 ^ 32 - suc n) % 2 ^ 32) m
  ok (if sz == 0 then none else some sz, m)

-- The tests of `switchuvm` on a process that is not null; it then loads registers of the CPU.
unfoldable pub switchuvm : Proc → Kernel → Outcome Kernel
switchuvm p k = if p.kstack == 0 then panic else if p.pgdir == 0 then panic else ok k

unfoldable pub growproc : ℤ → Kernel → Outcome (ℤ × Kernel)
growproc n k = do
  (i, p) ← myproc k
  (r, m) ← resize n p k.kmem
  elim r [
    | none ↦ ok (minus_one, record k { kmem = m })
    | some sz ↦ do
      k ← switchuvm p (record k { kmem = m; procs = modify k.procs i (λ p. record p { sz = sz }) })
      ok (pos 0, k)
  ]
