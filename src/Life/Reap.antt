-- ===== src/Life/Reap.antt =====
-- What `wait` of proc.c does with each outcome of its scan.
use a.Base.{
  get_elem?-modify_self, get_elem?-modify_ne, set, ◌≢◌, ℕ, zero, suc, ◌+◌, ◌<◌, ◌≡◌, refl, sym, ap,
  ◌∙◌, ◌≢◌, ◌⊎◌, inl, inr, Bool, true, false, some, List, [], ◌∷◌, arith, ◌==◌, ==_iff, Bool-cases,
  get_elem?, modify, All, Outcome, ok, subst, some-injective,
}
use a.Kalloc.{Kmem, kfree}
use a.Kernel.{unused, Kernel, Proc, is_zombie, acquire_ptable, release_ptable, myproc}
use a.Proc.{ptable_name}
use a.Proc.Sleep.{at_switch, sleep_lem, HoldsOnly}
use a.Life.{
  Scan, zombie_child, have_kids, scan_loop, clear_slot, WaitEnd, reaped, no_children, again,
  wait_round, wait,
}

-- `p` is a child of `curproc` that is dead.
abbrev pub IsDeadChild : ℕ → Proc → Type 0
IsDeadChild curproc p = (p.parent ≡ curproc) × (is_zombie p.state ≡ true)

-- Slot `i` holds the first dead child.
pub record IsFirstDead (curproc : ℕ) (ps : List Proc) (i : ℕ) (p : Proc) : Type 0 where
  pub at : get_elem? ps i ≡ some p
  pub child : p.parent ≡ curproc
  pub dead : is_zombie p.state ≡ true
  pub first :
      (j : ℕ) (q : Proc)
      → j < i
      → get_elem? ps j ≡ some q
      → q.parent ≡ curproc
      → is_zombie q.state ≡ false

abbrev pub NoneDead : ℕ → List Proc → Type 0
NoneDead curproc ps = All (λ p. p.parent ≡ curproc → is_zombie p.state ≡ false) ps

abbrev pub NoChild : ℕ → List Proc → Type 0
NoChild curproc ps = All (λ p. p.parent ≢ curproc) ps

abbrev ScanOk : ℕ → List Proc → ℕ → Bool → Scan → Type 0
ScanOk curproc ps i kids (zombie_child j p) = (m : ℕ) × (j ≡ i + m) × IsFirstDead curproc ps m p
ScanOk curproc ps i kids (have_kids true) =
    NoneDead curproc ps
    × ((kids ≡ true) ⊎ ((j : ℕ) × (q : Proc) × (get_elem? ps j ≡ some q) × (q.parent ≡ curproc)))
ScanOk curproc ps i kids (have_kids false) =
    NoneDead curproc ps × (kids ≡ false) × NoChild curproc ps

first-suc :
    (curproc : ℕ) (p : Proc) (ps : List Proc) (m : ℕ) (q : Proc)
    → (p.parent ≡ curproc → is_zombie p.state ≡ false)
    → IsFirstDead curproc ps m q
    → (j : ℕ) (r : Proc) → j < suc m
    → get_elem? (p ∷ ps) j ≡ some r
    → r.parent ≡ curproc
    → is_zombie r.state ≡ false
first-suc curproc p ps m q head f zero r lt g c =
    let e = some-injective _ _ g in
    subst (λ x. is_zombie x.state ≡ false) e (head (ap (λ x. x.parent) e ∙ c))
first-suc curproc p ps m q head f (suc j) r lt g c = f.first j r (omega arith) g c

-- A slot that holds no dead child, before the rest of the scan.
ScanOk-cons :
    (curproc : ℕ) (p : Proc) (ps : List Proc) (i : ℕ) (kids kids' : Bool) (s : Scan)
    → (p.parent ≡ curproc → is_zombie p.state ≡ false)
    → (((kids' ≡ kids) × (p.parent ≢ curproc)) ⊎ ((p.parent ≡ curproc) × (kids' ≡ true)))
    → ScanOk curproc ps (i + 1) kids' s
    → ScanOk curproc (p ∷ ps) i kids s
ScanOk-cons curproc p ps i kids kids' (zombie_child j q) head new (m, e, f) = (
  suc m,
  omega arith,
  record { at = f.at; child = f.child; dead = f.dead; first = first-suc curproc p ps m q head f },
)
ScanOk-cons curproc p ps i kids kids' (have_kids true) head (inr (c, t)) (n, k) =
    ((head, n), inr (0, p, refl, c))
ScanOk-cons curproc p ps i kids kids' (have_kids true) head (inl (e, ne)) (n, inl k) =
    ((head, n), inl (sym e ∙ k))
ScanOk-cons curproc p ps i kids kids' (have_kids true) head (inl (e, ne)) (n, inr (j, q, g, c)) =
    ((head, n), inr (suc j, q, g, c))
ScanOk-cons curproc p ps i kids kids' (have_kids false) head (inr (c, t)) (n, k, childless) =
    absurd cc
ScanOk-cons curproc p ps i kids kids' (have_kids false) head (inl (e, ne)) (n, k, childless) =
    ((head, n), sym e ∙ k, (ne, childless))

scan_loop-ScanOk :
    (curproc : ℕ) (ps : List Proc) (i : ℕ) (kids : Bool)
    → ScanOk curproc ps i kids (scan_loop curproc ps i kids)
unfolding scan_loop
scan_loop-ScanOk curproc [] i true = (tt, inl refl)
scan_loop-ScanOk curproc [] i false = (tt, refl, tt)
scan_loop-ScanOk curproc (p ∷ ps) i kids = elim (Bool-cases (p.parent == curproc)) [
  | inr other ↦
      let ne : p.parent ≢ curproc = ground arith in
      rw other (
        ScanOk-cons curproc p ps i kids kids (scan_loop curproc ps (i + 1) kids)
          (λ c. absurd (ne c)) (inl (refl, ne)) (scan_loop-ScanOk curproc ps (i + 1) kids))
  | inl mine ↦
      let c : p.parent ≡ curproc = (==_iff p.parent curproc).0 mine in
      elim (Bool-cases (is_zombie p.state)) [
        | inl z ↦
            rw (mine, z)
              (
                0,
                omega arith,
                record { at = refl; child = c; dead = z; first = λ j q lt. absurd (omega arith) },
              )
        | inr z ↦
            rw (mine, z)
              (ScanOk-cons curproc p ps i kids true (scan_loop curproc ps (i + 1) true) (λ _. z)
                (inr (c, refl)) (scan_loop-ScanOk curproc ps (i + 1) true))
      ]
]

-- How `wait` may end for the process in slot `me`.
abbrev pub WaitOk : (Kernel → Kernel) → ℕ → Proc → Kernel → WaitEnd → Type 0
WaitOk others me curproc k (reaped pid k') =
    (i : ℕ) × (p : Proc) × IsFirstDead k.current k.procs i p
    × (pid ≡ p.pid)
    × (get_elem? k'.procs i
        ≡ some (record p {
          kstack = 0;
          pid = 0;
          parent = 0;
          name = set p.name 0 0;
          killed = false;
          state = unused;
        }))
    × ((j : ℕ) → i ≢ j → get_elem? k'.procs j ≡ get_elem? k.procs j)
    × (k'.ptable_lock ≡ false)
    × (k'.ncli ≡ k.ncli)
WaitOk others me curproc k (no_children k') =
    NoneDead k.current k.procs × (NoChild k.current k.procs ⊎ (curproc.killed ≡ true)) × (k' ≡ k)
WaitOk others me curproc k (again k') =
    NoneDead k.current k.procs
    × ((j : ℕ) × (q : Proc) × (get_elem? k.procs j ≡ some q) × (q.parent ≡ k.current))
    × (curproc.killed ≡ false)
    × (k'.procs ≡ modify (others (at_switch me k.current k)).procs me (λ p. record p { chan = 0 }))

module _ (freevm : ℕ → Kmem → Outcome Kmem) (others : Kernel → Kernel) (me : ℕ) (curproc : Proc)
    (k : Kernel) (current : k.current ≡ suc me) (at : get_elem? k.procs me ≡ some curproc)
    (unlocked : k.ptable_lock ≡ false) (free_of_locks : (k.tickslock ≡ false) × (k.ncli ≡ 0))
    (resumed : HoldsOnly ptable_name (others (at_switch me k.current k)))
    (frees : (i : ℕ) (p : Proc)
      → get_elem? k.procs i ≡ some p
      → is_zombie p.state ≡ true
      → (m : Kmem) × (n : Kmem) × (kfree p.kstack k.kmem ≡ ok m) × (freevm p.pgdir m ≡ ok n)) where
  wait_scan :
      (s : Scan)
      → scan_loop k.current k.procs 0 false ≡ s
      → ScanOk k.current k.procs 0 false s
      → (e : WaitEnd) × (wait freevm others k ≡ ok e) × WaitOk others me curproc k e
  unfolding wait wait_round myproc acquire_ptable release_ptable
  wait_scan (zombie_child i p) e (m, j, f) =
      let (m1, m2, e1, e2) = frees m p f.at f.dead in
      let z : i ≡ m = omega (arith, j) in
      let count = free_of_locks.1 in
      (
        reaped p.pid
            (record k { kmem = m2; procs = modify k.procs m clear_slot; ptable_lock = false }),
        ground arith,
        (
          m,
          p,
          f,
          refl,
          get_elem?-modify_self k.procs m clear_slot f.at,
          (λ j ne. get_elem?-modify_ne k.procs m j clear_slot ne),
          refl,
          refl,
        ),
      )
  wait_scan (have_kids false) e (n, z, childless) =
      let count = free_of_locks.1 in (no_children k, ground arith, (n, inl childless, refl))
  wait_scan (have_kids true) e (n, z) = elim (Bool-cases curproc.killed) [
    | inl dead ↦ (no_children k, (let count = free_of_locks.1 in ground arith), (n, inr dead, refl))
    | inr alive ↦
        let k1 = record k { ptable_lock = true; ncli = 1 } in
        let (k2, r, h, ps) =
          sleep_lem others k.current me curproc k1 current at ptable_name
            (refl, free_of_locks.0, refl) resumed in
        (
          again k2,
          (let count = free_of_locks.1 in
              let w : k.ncli + 1 ≡ 1 = omega arith in ground (arith, r)),
          (n, elim z [ inl f ↦ absurd cc | inr c ↦ c ], alive, ps),
        )
  ]

  -- `wait`, called by the process in slot `me` with no lock held, ends in one of three ways, if its dead
  -- children can be freed and it is resumed with `ptable.lock` alone. It returns the pid of its first
  -- dead child, whose slot it has cleared, and no other slot has changed. Or no child is dead, and it
  -- returns -1 with nothing changed, since it has no child or is killed. Or no child is dead but there
  -- is one and it is not killed: then it has slept on its own address, and it looks again.
  pub wait-WaitOk : (e : WaitEnd) × (wait freevm others k ≡ ok e) × WaitOk others me curproc k e
  wait-WaitOk =
      wait_scan (scan_loop k.current k.procs 0 false) refl
        (scan_loop-ScanOk k.current k.procs 0 false)
