-- ===== src/Proc/Alloc.antt =====
-- `allocproc` of proc.c: which slot it takes, what it makes of it, and what it does on failure.
use a.Base.{
  ℕ, suc, ◌+◌, ◌-◌, ◌%◌, ◌^◌, ◌<◌, ◌≤◌, ◌≡◌, refl, ◌∙◌, ◌≢◌, inl, inr, false, some, List, [], ◌∷◌,
  arith, Bool-cases, get_elem?, modify, All, ok, get_elem?-modify_self, map-modify, map-modify-set,
  get_elem?-modify_ne,
}
use a.Kernel.{Kernel, Proc, unused, embryo, is_unused, proc_ptr}
use a.Kalloc.{Kmem, kalloc, store, page_size}
use a.Kalloc.FreeList.{IsFree, IsPage, Chain, Fresh, kalloc-cons}
use a.Proc.{find_unused, allocproc, new_stack, embryo_of, tf_of, context_of}
use a.Proc.Pids.{PidsOk, PidsOk-next}

-- The first UNUSED slot, behind `i` others.
pub find_unused-some :
    (ps : List Proc) (i : ℕ) {j : ℕ}
    → find_unused ps i ≡ some j
    → (p : Proc) × (i ≤ j) × (get_elem? ps (j - i) ≡ some p) × (p.state ≡ unused)
unfolding find_unused
find_unused-some [] i h = cc
find_unused-some (p ∷ ps) i {j} h = elim (Bool-cases (is_unused p.state)) [
  | inl e ↦
      let eq : i ≡ j = ground arith in
      let z : j - i ≡ 0 = omega arith in (p, omega arith, rw z refl, ground arith)
  | inr ne ↦
      let (q, le, at, st) = find_unused-some ps (i + 1) {j = j} (ground arith) in
      let z : j - i ≡ suc (j - (i + 1)) = omega arith in (q, omega arith, rw z at, st)
]

-- Writing a new stack on the page `x` leaves a chain of other pages as it is.
new_stack-Chain :
    (k : Kernel) (x e p : ℕ) (xs : List ℕ)
    → x % page_size ≡ 0
    → All (IsPage e) xs
    → Fresh x xs
    → Chain k.kmem.word p xs
    → Chain (new_stack k x).kmem.word p xs
unfolding new_stack store
new_stack-Chain k x e p [] a ps f c = c
new_stack-Chain k x e p (y ∷ ys) a ps f c =
    let al = ps.0.aligned in
    let same : (new_stack k x).kmem.word y ≡ k.kmem.word y = ground arith in
    (c.0, c.1, rw same (new_stack-Chain k x e (k.kmem.word y) ys a ps.1 f.1 c.2))

-- The slot `i` of `k` became a new process, with the page `x` for its kernel stack.
pub record IsNewProc (k : Kernel) (i x : ℕ) (xs : List ℕ) (k' : Kernel) : Type 0 where
  pub old : Proc
  pub was_unused : (get_elem? k.procs i ≡ some old) × (old.state ≡ unused)
  pub slot :
      get_elem? k'.procs i
      ≡ some (record old {
        state = embryo;
        pid = k.nextpid;
        container_id = 0;
        kstack = x;
        tf = tf_of x;
        context = context_of x;
      })
  pub others : (j : ℕ) → i ≢ j → get_elem? k'.procs j ≡ get_elem? k.procs j
  pub returns_to :
      (k'.kmem.word (context_of x + 16) ≡ k.forkret) × (k'.kmem.word (tf_of x - 4) ≡ k.trapret)
  pub free : IsFree k'.kmem xs
  pub pids_ok : PidsOk k'
  pub unlocked : (k'.ptable_lock ≡ false) × (k'.ncli ≡ k.ncli)

module _ (k : Kernel) (i x : ℕ) (xs : List ℕ) (unlocked : k.ptable_lock ≡ false)
    (found : find_unused k.procs 0 ≡ some i) where
  -- the state after `kalloc` of the stack, and the one returned
  abbrev with_stack : Kmem → Kernel
  with_stack m =
      record (new_stack
        (record k {
          kmem = m;
          nextpid = (k.nextpid + 1) % 2 ^ 32;
          ncli = k.ncli + 1 - 1;
          ptable_lock = false;
        })
        x) {
          procs =
              modify (modify k.procs i (embryo_of k.nextpid)) i
                (λ p. record p { kstack = x; tf = tf_of x; context = context_of x });
        }

  allocproc-eq :
      (m : Kmem) → kalloc k.kmem ≡ ok (x, m) → x ≢ 0 → allocproc k ≡ ok (proc_ptr i, with_stack m)
  unfolding allocproc
  allocproc-eq m got nz = ground arith

  pub allocproc-IsNewProc :
      IsFree k.kmem (x ∷ xs)
      → PidsOk k
      → k.nextpid + 1 < 2 ^ 31
      → (k' : Kernel) × (allocproc k ≡ ok (proc_ptr i, k')) × IsNewProc k i x xs k'
  unfolding new_stack store
  allocproc-IsNewProc free pids_ok small =
      let (m, got, free', fresh, page) = kalloc-cons k.kmem x xs free in
      let (p, _, at, st) = find_unused-some k.procs 0 found in
      let at' : get_elem? k.procs i ≡ some p = let z : i - 0 ≡ i = omega arith in rw z at at in
      (
        with_stack m,
        allocproc-eq m got (free.chain.1),
        record {
          old = p;
          was_unused = (at', st);
          slot =
              get_elem?-modify_self (modify k.procs i (embryo_of k.nextpid)) i _
                (get_elem?-modify_self k.procs i _ at');
          others = λ j ne.
              get_elem?-modify_ne (modify k.procs i (embryo_of k.nextpid)) i j _ ne
              ∙ get_elem?-modify_ne k.procs i j _ ne;
          returns_to = (ground arith, ground arith);
          free = record {
            chain =
                new_stack-Chain
                  (record k {
                    kmem = m;
                    nextpid = (k.nextpid + 1) % 2 ^ 32;
                    ncli = k.ncli + 1 - 1;
                    ptable_lock = false;
                  })
                  x m.kernel_end m.freelist xs page.aligned free'.pages fresh free'.chain;
            pages = free'.pages;
            distinct = free'.distinct;
            unlocked = free'.unlocked;
          };
          pids_ok =
              PidsOk-next k (with_stack m) pids_ok i
                (map-modify (λ (q : Proc). q.pid) (modify k.procs i (embryo_of k.nextpid)) i _
                    (λ q. refl)
                  ∙ map-modify-set (λ (q : Proc). q.pid) k.procs i _ k.nextpid (λ q. refl))
                (omega arith);
          unlocked = (refl, omega arith);
        },
      )
