-- ===== src/Proc/Kill.antt =====
-- `kill` of proc.c: whom it marks, and what it does not touch.
use a.Base.{
  get_elem?-map, get_elem?-All, ℕ, zero, suc, ◌+◌, ◌-◌, ◌≡◌, refl, sym, ap, ◌∙◌, ◌≢◌, true, false,
  none, some, List, [], ◌∷◌, map, arith, if◌then◌else◌, get_elem?, modify, All, ok, pos, minus_one,
  get_elem?-modify_self, get_elem?-modify_ne, map-modify, ◌<◌, ◌^◌,
}
use mathlib.Core.Option.{some-injective}
use a.Kernel.{Kernel, Proc, embryo, runnable, is_sleeping, proc_ptr}
use a.Kalloc.FreeList.{IsFree}
use a.Proc.{tf_of, context_of, mark_killed, kill_loop, kill, find_unused, allocproc}
use a.Proc.Pids.{pids, PidsOk, PidsOk-same, Unique}
use a.Proc.Alloc.{allocproc-IsNewProc, find_unused-some}

-- The loop stops at the first slot with the pid, `i`.
abbrev pub FirstWith : ℕ → ℕ → List Proc → Type 0
FirstWith pid i [] = ⊥
FirstWith pid zero (p ∷ ps) = p.pid ≡ pid
FirstWith pid (suc i) (p ∷ ps) = (p.pid ≢ pid) × FirstWith pid i ps

pub kill_loop-modify :
    (pid i : ℕ) (ps : List Proc)
    → FirstWith pid i ps
    → kill_loop pid ps ≡ some (modify ps i mark_killed)
unfolding kill_loop
kill_loop-modify pid i [] h = elim h [ ]
kill_loop-modify pid zero (p ∷ ps) h = ground arith
kill_loop-modify pid (suc i) (p ∷ ps) h = ground (arith, kill_loop-modify pid i ps h.1)

kill_loop-none :
    (pid : ℕ) (ps : List Proc)
    → All (λ x. x ≢ pid) (map (λ (p : Proc). p.pid) ps)
    → kill_loop pid ps ≡ none
unfolding kill_loop
kill_loop-none pid [] h = refl
kill_loop-none pid (p ∷ ps) h = ground (arith, kill_loop-none pid ps h.1)

-- In a table of unique pids a slot with the pid is the first.
pub FirstWith-of_Unique :
    (pid : ℕ) (ps : List Proc) (i : ℕ) (p : Proc)
    → Unique (map (λ (q : Proc). q.pid) ps)
    → pid ≢ 0
    → get_elem? ps i ≡ some p
    → p.pid ≡ pid
    → FirstWith pid i ps
FirstWith-of_Unique pid [] i p u nz at e = cc
FirstWith-of_Unique pid (q ∷ qs) zero p u nz at e = ground arith
FirstWith-of_Unique pid (q ∷ qs) (suc i) p u nz at e = (
  (λ same.
      get_elem?-All (λ y. y ≢ q.pid) (map (λ (r : Proc). r.pid) qs) i (u.0 (λ z. nz (sym same ∙ z)))
        (get_elem?-map (λ (r : Proc). r.pid) qs i at) (e ∙ sym same)),
  FirstWith-of_Unique pid qs i p u.1 nz at e,
)

module _ (k : Kernel) (unlocked : k.ptable_lock ≡ false) where
  -- the state after the slot `i` was found
  abbrev killed_at : ℕ → Kernel
  killed_at i = record k {
    procs = modify k.procs i mark_killed;
    ncli = k.ncli + 1 - 1;
    ptable_lock = false;
  }

  kill-FirstWith : (pid i : ℕ) → FirstWith pid i k.procs → kill pid k ≡ ok (pos 0, killed_at i)
  unfolding kill
  kill-FirstWith pid i h = ground (arith, kill_loop-modify pid i k.procs h)

  -- `kill` of a live pid returns 0 and marks that process: it is killed, back in container 0, and
  -- RUNNABLE if it slept. Every other slot is as it was, and the lock is released.
  pub kill-found :
      (pid i : ℕ) (p : Proc)
      → PidsOk k
      → pid ≢ 0
      → get_elem? k.procs i ≡ some p
      → p.pid ≡ pid
      → (k' : Kernel) × (kill pid k ≡ ok (pos 0, k'))
        × (get_elem? k'.procs i
            ≡ some (record p {
              killed = true;
              container_id = 0;
              state = if is_sleeping p.state then runnable else p.state;
            }))
        × ((j : ℕ) → i ≢ j → get_elem? k'.procs j ≡ get_elem? k.procs j)
        × PidsOk k'
        × (k'.ptable_lock ≡ false)
  kill-found pid i p v nz at e = (
    killed_at i,
    kill-FirstWith pid i (FirstWith-of_Unique pid k.procs i p v.unique nz at e),
    get_elem?-modify_self k.procs i mark_killed at,
    (λ j ne. get_elem?-modify_ne k.procs i j mark_killed ne),
    PidsOk-same k (killed_at i) v
        (map-modify (λ (q : Proc). q.pid) k.procs i mark_killed (λ q. refl)) refl,
    refl,
  )

  -- `kill` of a pid that no slot has returns -1 and leaves the table alone.
  pub kill-missing :
      (pid : ℕ)
      → All (λ x. x ≢ pid) (pids k)
      → (k' : Kernel) × (kill pid k ≡ ok (minus_one, k'))
        × (k'.procs ≡ k.procs)
        × (k'.ptable_lock ≡ false)
  unfolding kill
  kill-missing pid h = (
    record k { ncli = k.ncli + 1 - 1; ptable_lock = false },
    ground (arith, kill_loop-none pid k.procs h),
    refl,
    refl,
  )

find_unused-modify :
    (ps : List Proc) (i n : ℕ) → find_unused (modify ps i mark_killed) n ≡ find_unused ps n
unfolding find_unused
find_unused-modify [] i n = refl
find_unused-modify (p ∷ ps) zero n = ground arith
find_unused-modify (p ∷ ps) (suc i) n = rw (find_unused-modify ps i (n + 1))

-- `kill(0)` finds the first slot of pid 0. If that is the first UNUSED slot, the next process that
-- `allocproc` makes there is born with `killed` set, since nothing clears it before.
pub allocproc-kill_zero :
    (k : Kernel) (i x : ℕ) (xs : List ℕ)
    → k.ptable_lock ≡ false
    → find_unused k.procs 0 ≡ some i
    → FirstWith 0 i k.procs
    → PidsOk k
    → IsFree k.kmem (x ∷ xs)
    → k.nextpid + 1 < 2 ^ 31
    → (k1 : Kernel) × (k2 : Kernel) × (p : Proc) × (kill 0 k ≡ ok (pos 0, k1))
      × (allocproc k1 ≡ ok (proc_ptr i, k2))
      × (get_elem? k2.procs i ≡ some p)
      × (p.killed ≡ true)
allocproc-kill_zero k i x xs un fu first v free small =
    let k1 = killed_at k un i in
    let v1 : PidsOk k1 =
      PidsOk-same k k1 v (map-modify (λ (q : Proc). q.pid) k.procs i mark_killed (λ q. refl))
        refl in
    let fu1 : find_unused k1.procs 0 ≡ some i = find_unused-modify k.procs i 0 ∙ fu in
    let (k2, eq, new) = allocproc-IsNewProc k1 i x xs refl fu1 free v1 small in
    let (q, _, at, _) = find_unused-some k.procs 0 fu in
    let at0 : get_elem? k.procs i ≡ some q = let z : i - 0 ≡ i = omega arith in rw z at at in
    let same : new.old ≡ mark_killed q =
      some-injective _ _ (sym new.was_unused.0 ∙ get_elem?-modify_self k.procs i mark_killed at0) in
    (
      k1,
      k2,
      record (new.old) {
        state = embryo;
        pid = k1.nextpid;
        container_id = 0;
        kstack = x;
        tf = tf_of x;
        context = context_of x;
      },
      kill-FirstWith k un 0 i first,
      eq,
      new.slot,
      ap (λ (r : Proc). r.killed) same,
    )

-- There is only one first slot.
pub FirstWith-unique :
    (pid i j : ℕ) (ps : List Proc) → FirstWith pid i ps → FirstWith pid j ps → i ≡ j
FirstWith-unique pid i j [] f g = elim f [ ]
FirstWith-unique pid zero zero (p ∷ ps) f g = refl
FirstWith-unique pid zero (suc j) (p ∷ ps) f g = absurd (g.0 f)
FirstWith-unique pid (suc i) zero (p ∷ ps) f g = absurd (f.0 g)
FirstWith-unique pid (suc i) (suc j) (p ∷ ps) f g = ap suc (FirstWith-unique pid i j ps f.1 g.1)
