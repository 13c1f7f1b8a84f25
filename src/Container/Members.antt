-- ===== src/Container/Members.antt =====
-- Joining and leaving a container, and the listings, of proc.c.
use a.Base.{
  get_elem?-All, ℕ, zero, suc, ◌+◌, ◌-◌, ◌≡◌, refl, sym, ap, ◌∙◌, ◌≢◌, true, false, some, List, [],
  ◌∷◌, ◌++◌, map, arith, get_elem?, ok, panic, get_elem?-map, map-map,
}
use a.Kernel.{Kernel, Proc, myproc, print, present_line, added_line}
use a.Proc.{kill, allocproc, wakeup}
use a.Proc.Pids.{PidsOk, PidsOk-same, Unique, Unique-index}
use a.Container.{
  move_to, add_process_to_container, remove_process_from_container, gtcid, gtcid_loop,
  list_containers_helper,
}

-- Slot `i` holds the running process, `p`, which has a pid.
pub record IsCurrent (k : Kernel) (i : ℕ) (p : Proc) : Type 0 where
  pub current : k.current ≡ suc i
  pub at : get_elem? k.procs i ≡ some p
  pub live : p.pid ≢ 0

pub myproc-IsCurrent : (k : Kernel) (i : ℕ) (p : Proc) → IsCurrent k i p → myproc k ≡ ok (i, p)
unfolding myproc
myproc-IsCurrent k i p c = let cu = c.current in let at' = c.at in ground arith

-- The search for a pid finds the slot that has it.
gtcid_loop-slot :
    (ps : List Proc) (i : ℕ) (p : Proc)
    → Unique (map (λ (q : Proc). q.pid) ps)
    → get_elem? ps i ≡ some p
    → p.pid ≢ 0
    → gtcid_loop p.pid ps ≡ ok p.container_id
unfolding gtcid_loop
gtcid_loop-slot [] i p u at nz = cc
gtcid_loop-slot (q ∷ qs) zero p u at nz = ground arith
gtcid_loop-slot (q ∷ qs) (suc i) p u at nz =
    let at' = get_elem?-map (λ (r : Proc). r.pid) qs i at in
    let ne : q.pid ≢ p.pid = λ e.
      get_elem?-All (λ y. y ≢ q.pid) (map (λ (r : Proc). r.pid) qs) i (u.0 (λ z. nz (sym e ∙ z)))
        at' (sym e) in
    ground (arith, gtcid_loop-slot qs i p u.1 at nz)

-- `gtcid` returns the container of the running process, though it looks the pid up in the table.
pub gtcid_lem :
    (k : Kernel) (i : ℕ) (p : Proc) → IsCurrent k i p → PidsOk k → gtcid k ≡ ok p.container_id
unfolding gtcid
gtcid_lem k i p c v =
    rw (myproc-IsCurrent k i p c) (gtcid_loop-slot k.procs i p v.unique c.at c.live)

move_to_other :
    (ps : List Proc) (i j : ℕ) (pid cid : ℕ) (p q : Proc)
    → Unique (map (λ (r : Proc). r.pid) ps)
    → get_elem? ps i ≡ some p
    → p.pid ≡ pid
    → pid ≢ 0
    → get_elem? ps j ≡ some q
    → i ≢ j
    → get_elem? (map (move_to pid cid) ps) j ≡ some q
move_to_other ps i j pid cid p q u ati e nz atj ne =
    let qp : q.pid ≢ pid = λ h. ne (
      Unique-index (map (λ (r : Proc). r.pid) ps) i j pid u
        (get_elem?-map (λ (r : Proc). r.pid) ps i ati ∙ ap some e)
        (get_elem?-map (λ (r : Proc). r.pid) ps j atj ∙ ap some h) nz) in
    get_elem?-map (move_to pid cid) ps j atj ∙ ground arith

-- A process that joins a container is told that container by `gtcid` from then on, and no other slot
-- changes. Nothing checks that the container exists.
pub gtcid-add_process :
    (k : Kernel) (i cid : ℕ) (p : Proc)
    → IsCurrent k i p
    → PidsOk k
    → k.ptable_lock ≡ false
    → (k' : Kernel) × (add_process_to_container p.pid cid k ≡ ok k')
      × (gtcid k' ≡ ok cid)
      × ((j : ℕ) (q : Proc) → get_elem? k.procs j ≡ some q → i ≢ j → get_elem? k'.procs j ≡ some q)
      × PidsOk k'
      × (k'.ptable_lock ≡ false)
unfolding add_process_to_container
gtcid-add_process k i cid p c v un =
    let k' = print (added_line p.pid cid) (record k {
      procs = map (move_to p.pid cid) k.procs;
      ncli = k.ncli + 1 - 1;
      ptable_lock = false;
    }) in
    let v' : PidsOk k' =
      PidsOk-same k k' v
        (map-map (λ (q : Proc). q.pid) (move_to p.pid cid) (λ q. q.pid) k.procs (λ q. ground arith))
        refl in
    let at' : get_elem? k'.procs i ≡ some (record p { container_id = cid }) =
      get_elem?-map (move_to p.pid cid) k.procs i c.at ∙ ground arith in
    (
      k',
      ground arith,
      gtcid_lem k' i (record p { container_id = cid })
          (record { current = c.current; at = at'; live = c.live }) v',
      (λ j q a ne. move_to_other k.procs i j p.pid cid p q v.unique c.at refl c.live a ne),
      v',
      refl,
    )

-- A process that leaves its container is in container 0.
pub gtcid-remove_process :
    (k : Kernel) (i : ℕ) (p : Proc)
    → IsCurrent k i p
    → PidsOk k
    → k.ptable_lock ≡ false
    → (k' : Kernel) × (remove_process_from_container p.pid k ≡ ok k')
      × (gtcid k' ≡ ok 0)
      × ((j : ℕ) (q : Proc) → get_elem? k.procs j ≡ some q → i ≢ j → get_elem? k'.procs j ≡ some q)
      × PidsOk k'
      × (k'.ptable_lock ≡ false)
unfolding remove_process_from_container
gtcid-remove_process k i p c v un =
    let k' = record k {
      procs = map (move_to p.pid 0) k.procs;
      ncli = k.ncli + 1 - 1;
      ptable_lock = false;
    } in
    let v' : PidsOk k' =
      PidsOk-same k k' v
        (map-map (λ (q : Proc). q.pid) (move_to p.pid 0) (λ q. q.pid) k.procs (λ q. ground arith))
        refl in
    let at' : get_elem? k'.procs i ≡ some (record p { container_id = 0 }) =
      get_elem?-map (move_to p.pid 0) k.procs i c.at ∙ ground arith in
    (
      k',
      ground arith,
      gtcid_lem k' i (record p { container_id = 0 })
          (record { current = c.current; at = at'; live = c.live }) v',
      (λ j q a ne. move_to_other k.procs i j p.pid 0 p q v.unique c.at refl c.live a ne),
      v',
      refl,
    )

-- `listContainersHelper` returns with `ptable.lock` held, so that whatever takes that lock next on
-- this CPU panics: `kill`, `wakeup`, `allocproc`, and the listing itself.
pub list_containers-then_panic :
    (k : Kernel) (x : ℕ)
    → k.ptable_lock ≡ false
    → (k' : Kernel) × (list_containers_helper k ≡ ok k')
      × (kill x k' ≡ panic)
      × (wakeup x k' ≡ panic)
      × (allocproc k' ≡ panic)
      × (list_containers_helper k' ≡ panic)
unfolding list_containers_helper kill wakeup allocproc
list_containers-then_panic k x un = (
  record k {
    ptable_lock = true;
    ncli = k.ncli + 1;
    console = k.console ++ map (λ (p : Proc). present_line p.pid p.container_id) k.procs;
  },
  ground arith,
  refl,
  refl,
  refl,
  refl,
)
