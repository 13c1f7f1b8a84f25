-- ===== src/Sysproc.antt =====
-- sysproc.c: the system calls on processes and containers. The argument that `argint` fetches is
-- `none` where it fails; the calls that do not test for that work on the value `id` of their variable.
pub mod Sbrk
use a.Base.{
  ℕ, ◌+◌, ◌-◌, ◌%◌, ◌^◌, true, false, Option, none, some, ltb, ◌==◌, if◌then◌else◌, set, Outcome,
  ok, ◌>>=◌, ℤ, pos, negsuc, minus_one,
}
use a.Kernel.{Kernel, acquire_ticks, release_ticks, access, myproc, print, non_existent_line}
use a.Proc.Grow.{growproc}
use a.Proc.{kill, sleep, ticks_name}
use a.Container.{
  create_container, destroy_container, add_process_to_container, remove_process_from_container,
  ps_helper, list_containers_helper, container_malloc, gtcid,
}

-- A call that returns 0.
abbrev zero_of : Outcome Kernel → Outcome (ℤ × Kernel)
zero_of o = o >>= λ k. ok (pos 0, k)

unfoldable pub sys_create_container : Kernel → Outcome (ℤ × Kernel)
sys_create_container k = create_container k

unfoldable pub sys_destroy_container : ℕ → Kernel → Outcome (ℤ × Kernel)
sys_destroy_container id k = do
  flag ← access k.containers id
  let k =
      if flag == 0
      then print non_existent_line k
      else record k { containers = set k.containers id 0 }
  zero_of (destroy_container id k)

unfoldable pub sys_join_container : ℕ → Kernel → Outcome (ℤ × Kernel)
sys_join_container id k = do (i, p) ← myproc k; zero_of (add_process_to_container p.pid id k)

unfoldable pub sys_leave_container : Kernel → Outcome (ℤ × Kernel)
sys_leave_container k = do (i, p) ← myproc k; zero_of (remove_process_from_container p.pid k)

unfoldable pub sys_ps : Kernel → Outcome (ℤ × Kernel)
sys_ps k = do (i, p) ← myproc k; zero_of (ps_helper p.pid p.container_id k)

unfoldable pub sys_list_containers : Kernel → Outcome (ℤ × Kernel)
sys_list_containers k = zero_of (list_containers_helper k)

unfoldable pub sys_container_malloc : ℕ → Kernel → Outcome (ℤ × Kernel)
sys_container_malloc bytes k = do (i, p) ← myproc k; zero_of (container_malloc bytes p.pid k)

unfoldable pub sys_scheduler_log_on : Kernel → Outcome (ℤ × Kernel)
sys_scheduler_log_on k = ok (pos 0, record k { scheduler_log = true })

unfoldable pub sys_scheduler_log_off : Kernel → Outcome (ℤ × Kernel)
sys_scheduler_log_off k = ok (pos 0, record k { scheduler_log = false })

unfoldable pub sys_memory_log_on : Kernel → Outcome (ℤ × Kernel)
sys_memory_log_on k = ok (pos 0, record k { memory_log = true })

unfoldable pub sys_memory_log_off : Kernel → Outcome (ℤ × Kernel)
sys_memory_log_off k = ok (pos 0, record k { memory_log = false })

unfoldable pub sys_kill : Option ℕ → Kernel → Outcome (ℤ × Kernel)
sys_kill none k = ok (minus_one, k)
sys_kill (some pid) k = kill pid k

unfoldable pub sys_getpid : Kernel → Outcome ℤ
sys_getpid k = do (i, p) ← myproc k; ok (pos p.pid)

unfoldable pub sys_getcid : Kernel → Outcome ℕ
sys_getcid k = gtcid k

-- A size is below KERNBASE, so that `addr` is not negative.
unfoldable pub sys_sbrk : Option ℤ → Kernel → Outcome (ℤ × Kernel)
sys_sbrk none k = ok (minus_one, k)
sys_sbrk (some n) k = do
  (i, p) ← myproc k
  (r, k) ← growproc n k
  ok (elim r [ negsuc _ ↦ minus_one | pos _ ↦ pos p.sz ], k)

-- How `sys_sleep` goes on after a round of its loop.
pub data SleepEnd : Type 0 where
  sleep_returns : ℤ → Kernel → SleepEnd
  sleep_again : Kernel → SleepEnd

-- One round of the loop, with `tickslock` held; the channel `&ticks` is `chan`. The comparison is
-- that of `uint`s.
unfoldable pub sleep_round : (Kernel → Kernel) → (chan n ticks0 : ℕ) → Kernel → Outcome SleepEnd
sleep_round others chan n ticks0 k =
    if ltb ((k.ticks + 2 ^ 32 - ticks0) % 2 ^ 32) n
    then (do
      (i, p) ← myproc k
      if p.killed
          then release_ticks k >>= (λ k. ok (sleep_returns minus_one k))
          else sleep others chan ticks_name k >>= (λ k. ok (sleep_again k)))
    else release_ticks k >>= (λ k. ok (sleep_returns (pos 0) k))

-- `sys_sleep`, to its return or through its first sleep.
unfoldable pub sys_sleep : (Kernel → Kernel) → ℕ → Option ℕ → Kernel → Outcome SleepEnd
sys_sleep others chan none k = ok (sleep_returns minus_one k)
sys_sleep others chan (some n) k = acquire_ticks k >>= λ k. sleep_round others chan n k.ticks k

unfoldable pub sys_uptime : Kernel → Outcome (ℕ × Kernel)
sys_uptime k = do k ← acquire_ticks k; let xticks = k.ticks; k ← release_ticks k; ok (xticks, k)
