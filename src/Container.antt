-- ===== src/Container.antt =====
-- proc.c: the containers, their members and their page tables.
pub mod Table
pub mod Destroy
pub mod Members
pub mod Malloc
use a.Base.{
  ℕ, zero, suc, ◌+◌, ◌-◌, ◌*◌, ◌/◌, ◌%◌, ◌^◌, ◌≤◌, ◌<◌, min, ◌≡◌, refl, sym, ap, ap₂, ◌∙◌, fun_ext,
  ◌≢◌, ◌↔◌, ◌⊎◌, inl, inr, Bool, true, false, ◌&&◌, ◌||◌, not, Option, none, some, List, [], ◌∷◌,
  ◌++◌, map, arith, ltb, leb, ◌==◌, if◌then◌else◌, ==_iff, Bool-cases, Option-cases, length,
  get_elem?, set, take, drop, replicate, modify, All, Outcome, ok, panic, fault, ◌>>=◌, ℤ, pos,
  negsuc, minus_one,
}
use a.Kernel.{
  Kernel, Proc, ProcState, unused, embryo, sleeping, runnable, running, zombie, is_unused,
  is_sleeping, is_runnable, is_running, is_zombie, acquire_ptable, release_ptable, acquire_ctable,
  release_ctable, acquire_ticks, release_ticks, access, myproc, print, proc_ptr, Container,
  ContainerState, crunning, cwaiting, cunused, is_waiting, PgElement, Line, ps_line, present_line,
  added_line, mapping_line, pid_line, no_container_line, non_existent_line, scheduling_line,
}
use a.Kalloc.{Kmem, kalloc}
use a.Proc.{kill}

-- The loop of `containerInit`, from the container of number `i` on.
init_loop : ℕ → List Container → List Container
init_loop i [] = []
init_loop i (c ∷ cs) =
    record c { container_id = i; state = cunused; next_gva = 0; next = 0 } ∷ init_loop (i + 1) cs

unfoldable pub container_init : Kernel → Kernel
unfolding init_loop
container_init k = record k {
  conts = modify (init_loop 0 k.conts) 0 (λ c. record c { state = cwaiting });
}

-- The loop of `createContainer` from slot `i` on: slot and id of the first free container, which is
-- one whose flag is 0, and not container 0.
unfoldable pub create_loop : List Container → ℕ → List ℕ → Outcome (Option (ℕ × ℕ))
create_loop [] i flags = ok none
create_loop (c ∷ cs) i flags =
    let rest = create_loop cs (i + 1) flags in
    access flags c.container_id >>= λ flag.
    if (flag == 0) && not (c.container_id == 0) then ok (some (i, c.container_id)) else rest

unfoldable pub create_container : Kernel → Outcome (ℤ × Kernel)
unfolding acquire_ctable release_ctable create_loop
create_container k = do
  k ← acquire_ctable k
  found ← create_loop k.conts 0 k.containers
  elim found [
    | none ↦ release_ctable (print no_container_line k) >>= λ k. ok (minus_one, k)
    | some (i, id) ↦
        release_ctable (record k {
          containers = set k.containers id 1;
          conts = modify k.conts i (λ c. record c { state = cwaiting });
        })
        >>= λ k. ok (pos id, k)
  ]

-- The body of the second loop of `destroyContainer`: the lock is dropped round the call of `kill`.
unfoldable pub evict_slot : ℕ → ℕ → Kernel → Outcome Kernel
unfolding acquire_ptable release_ptable kill
evict_slot id i k = do
  p ← access k.procs i
  if p.container_id == id
      then (do k ← release_ptable k; (r, k) ← kill p.pid k; acquire_ptable k)
      else ok k

-- That loop, `n` slots from `i` on.
unfoldable pub evict_loop : ℕ → ℕ → ℕ → Kernel → Outcome Kernel
unfolding evict_slot
evict_loop id zero i k = ok k
evict_loop id (suc n) i k = evict_slot id i k >>= evict_loop id n (i + 1)

-- `con->state = CUNUSED; containers[id] = 0;` faults where `id` is outside the arrays.
unfoldable pub close_container : ℕ → Kernel → Outcome Kernel
close_container id k = do
  c ← access k.conts id
  flag ← access k.containers id
  ok (record k {
    conts = modify k.conts id (λ c. record c { state = cunused });
    containers = set k.containers id 0;
  })

unfoldable pub destroy_container : ℕ → Kernel → Outcome Kernel
unfolding acquire_ctable release_ctable acquire_ptable release_ptable close_container evict_loop
destroy_container id k = do
  k ← acquire_ctable k
  k ← close_container id k
  k ← release_ctable k
  k ← acquire_ptable k
  k ← evict_loop id (length k.procs) 0 k
  release_ptable k

-- The body of the loops that move a process: every slot of that pid changes.
abbrev pub move_to : ℕ → ℕ → Proc → Proc
move_to pid container_id p = if p.pid == pid then record p { container_id = container_id } else p

unfoldable pub add_process_to_container : ℕ → ℕ → Kernel → Outcome Kernel
unfolding acquire_ptable release_ptable
add_process_to_container pid container_id k = do
  k ← acquire_ptable k
  k ← release_ptable (record k { procs = map (move_to pid container_id) k.procs })
  ok (print (added_line pid container_id) k)

unfoldable pub remove_process_from_container : ℕ → Kernel → Outcome Kernel
unfolding acquire_ptable release_ptable
remove_process_from_container pid k = do
  k ← acquire_ptable k
  release_ptable (record k { procs = map (move_to pid 0) k.procs })

-- The loop of `gtcid`; a pid that is in no slot is looked for past the end of the table.
gtcid_loop : ℕ → List Proc → Outcome ℕ
gtcid_loop pid [] = fault
gtcid_loop pid (p ∷ ps) = if p.pid == pid then ok p.container_id else gtcid_loop pid ps

unfoldable pub gtcid : Kernel → Outcome ℕ
unfolding myproc gtcid_loop
gtcid k = do (i, p) ← myproc k; gtcid_loop p.pid k.procs

-- The lines of the loop of `psHelper`.
ps_lines : ℕ → List Proc → List Line
ps_lines container_id [] = []
ps_lines container_id (p ∷ ps) =
    let rest = ps_lines container_id ps in
    if (p.container_id == container_id) && not (is_unused p.state)
    then ps_line p.pid p.name p.container_id ∷ rest
    else rest

-- The first parameter of `psHelper` is unused.
unfoldable pub ps_helper : ℕ → ℕ → Kernel → Outcome Kernel
unfolding acquire_ptable release_ptable ps_lines
ps_helper proc_id container_id k = do
  k ← acquire_ptable k
  release_ptable (record k { console = k.console ++ ps_lines container_id k.procs })

-- `listContainersHelper` does not release the lock.
unfoldable pub list_containers_helper : Kernel → Outcome Kernel
unfolding acquire_ptable
list_containers_helper k = do
  k ← acquire_ptable k
  ok (record k {
    console = k.console ++ map (λ (p : Proc). present_line p.pid p.container_id) k.procs;
  })

-- `if(memoryLog == 1)`
abbrev pub log_mapping : ℕ → ℕ → ℕ → Kernel → Kernel
log_mapping gva hva pid k =
    if k.memory_log then print (pid_line pid) (print (mapping_line gva hva) k) else k

-- The body of the `if` of `container_malloc`, at slot `j`, which holds `c`. The sum of the `int`s is
-- that of their patterns; the entry that is filled must lie in the table.
unfoldable pub map_page : ℕ → Container → ℕ → ℕ → Kernel → Outcome Kernel
map_page j c bytes pid k = do
  old ← access c.page c.next
  (hva, m) ← kalloc k.kmem
  ok (
      log_mapping c.next_gva hva pid (record k {
        kmem = m;
        conts = modify k.conts j (λ c. record c {
          next_gva = (c.next_gva + bytes) % 2 ^ 32;
          page = set c.page c.next (record { gva = c.next_gva; hva = hva; pid = pid });
          next = c.next + 1;
        });
      }))

-- The loop of `container_malloc`, `n` slots from `j` on.
unfoldable pub malloc_loop : ℕ → ℕ → ℕ → ℕ → Kernel → Outcome Kernel
unfolding myproc map_page
malloc_loop zero j bytes pid k = ok k
malloc_loop (suc n) j bytes pid k = do
  c ← access k.conts j
  (i, p) ← myproc k
  k ← (if c.container_id == p.container_id then map_page j c bytes pid k else ok k)
  malloc_loop n (j + 1) bytes pid k

unfoldable pub container_malloc : ℕ → ℕ → Kernel → Outcome Kernel
unfolding acquire_ctable release_ctable malloc_loop
container_malloc bytes pid k = do
  k ← acquire_ctable k
  k ← malloc_loop (length k.conts) 0 bytes pid k
  release_ctable k
