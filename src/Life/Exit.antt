-- ===== src/Life/Exit.antt =====
-- The state in which `exit` of proc.c switches to the scheduler.
use a.Base.{
  ℕ, suc, ◌+◌, ◌<◌, ◌≡◌, refl, sym, ap, ap₂, ◌∙◌, ◌≢◌, inl, inr, Bool, true, false, some, List, [],
  ◌∷◌, map, arith, ◌==◌, ==_iff, Bool-cases, length, get_elem?, modify, Outcome, ok, subst,
  some-injective, get_elem?-map, get_elem?-modify_self, get_elem?-modify_ne, lt_of_get_elem?,
  get_elem?-ne-none,
}
use a.Kernel.{Kernel, Proc, zombie, acquire_ptable, myproc}
use a.Proc.{wake, wakeup1, sched}
use a.Life.Leave.{adopt_loop, close_loop, exit, nofile}
use a.Life.Adopt.{adopted, woken, adopt_loop_lem}
use a.Life.Closing.{Closes, Skips, Puts, close_loop-Closing}

-- The state that `exit` leaves, for the process in slot `i`: `ptable.lock` is the only lock held, the
-- process is a zombie with no open file and no directory, and nobody has it for a parent.
pub record IsGone (i c : ℕ) (k : Kernel) : Type 0 where
  pub current : k.current ≡ c
  pub lock : k.ptable_lock ≡ true
  pub ncli : k.ncli ≡ 1
  pub proc :
      (p : Proc) × (get_elem? k.procs i ≡ some p)
      × (p.state ≡ zombie)
      × (p.cwd ≡ 0)
      × (length p.ofile ≡ nofile)
      × ((fd : ℕ) → fd < nofile → get_elem? p.ofile fd ≡ some 0)
  pub orphans : (j : ℕ) (p : Proc) → get_elem? k.procs j ≡ some p → p.parent ≢ c

woken-fields :
    (w : Bool) (chan : ℕ) (p : Proc)
    → ((woken w chan p).cwd ≡ p.cwd)
      × ((woken w chan p).ofile ≡ p.ofile)
      × ((woken w chan p).parent ≡ p.parent)
woken-fields w chan p = (ground arith, ground arith, ground arith)

adopted-fields :
    (c init : ℕ) (p : Proc)
    → init ≢ c
    → ((adopted c init p).cwd ≡ p.cwd)
      × ((adopted c init p).ofile ≡ p.ofile)
      × ((adopted c init p).parent ≢ c)
adopted-fields c init p ne = (ground arith, ground arith, ground arith)

map-length : (f : Proc → Proc) (xs : List Proc) → length (map f xs) ≡ length xs
map-length f [] = refl
map-length f (x ∷ xs) = ap suc (map-length f xs)

abbrev to_zombie : Proc → Proc
to_zombie p = record p { state = zombie }

-- The part of `exit` that holds `ptable.lock`.
adopt_loop-IsGone :
    (i c init : ℕ) (k : Kernel) (p : Proc)
    → init ≢ c
    → c ≡ suc i
    → k.current ≡ c
    → k.ptable_lock ≡ true
    → k.ncli ≡ 1
    → get_elem? k.procs i ≡ some p
    → p.cwd ≡ 0
    → length p.ofile ≡ nofile
    → ((fd : ℕ) → fd < nofile → get_elem? p.ofile fd ≡ some 0)
    → (k1 : Kernel) × (adopt_loop c init (length k.procs) 0 k ≡ ok k1)
      × (k1.current ≡ c)
      × (k1.ptable_lock ≡ true)
      × (k1.ncli ≡ 1)
      × ((q : Proc) × (get_elem? k1.procs i ≡ some q))
      × IsGone i c (record k1 { procs = modify k1.procs i to_zombie })
adopt_loop-IsGone i c init k p ne mine cur lk n at cwd size closed =
    let (w, ps, r, len, each, x, y) = adopt_loop_lem c init k in
    let q = woken w init (adopted c init p) in
    let here = each i p at in
    let (wc, wo, wp) = woken-fields w init (adopted c init p) in
    let (ac, ao, apar) = adopted-fields c init p ne in
    let files : q.ofile ≡ p.ofile = wo ∙ ao in
    let parents : (j : ℕ) (s : Proc) → get_elem? ps j ≡ some s → s.parent ≢ c = λ j s g.
      let lt = lt_of_get_elem? ps j g in
      let (s0, g0) = get_elem?-ne-none k.procs j (omega arith) in
      let e : woken w init (adopted c init s0) ≡ s = some-injective _ _ (sym (each j s0 g0) ∙ g) in
      let f = (woken-fields w init (adopted c init s0)).2 in
      let a = (adopted-fields c init s0 ne).2 in λ bad. a (sym f ∙ ap (λ x. x.parent) e ∙ bad) in
    (
      record k { procs = ps },
      r,
      cur,
      lk,
      n,
      (q, here),
      record {
        current = cur;
        lock = lk;
        ncli = n;
        proc = (
          to_zombie q,
          get_elem?-modify_self ps i to_zombie here,
          refl,
          wc ∙ ac ∙ cwd,
          ap length files ∙ size,
          (λ fd lt. ap (λ x. get_elem? x fd) files ∙ closed fd lt),
        );
        orphans = λ j s g. elim (Bool-cases (j == i)) [
          | inl t ↦
              let z = (==_iff j i).0 t in
              let g' = subst (λ x. get_elem? (modify ps i to_zombie) x ≡ some s) z g in
              let e : to_zombie q ≡ s =
                some-injective _ _ (sym (get_elem?-modify_self ps i to_zombie here) ∙ g') in
              λ bad. parents i q here (ap (λ x. x.parent) e ∙ bad)
          | inr t ↦ parents j s (sym (get_elem?-modify_ne ps i j to_zombie (ground arith)) ∙ g)
        ];
      },
    )

exit-eq :
    (fileclose put_cwd : ℕ → Kernel → Outcome Kernel) (i : ℕ) (k k1 k2 k5 : Kernel)
    (p p1 p3 q : Proc)
    → k.current ≡ suc i
    → get_elem? k.procs i ≡ some p
    → (k.current == k.initproc) ≡ false
    → close_loop fileclose i nofile 0 k ≡ ok k1
    → get_elem? k1.procs i ≡ some p1
    → put_cwd p1.cwd k1 ≡ ok k2
    → k2.ptable_lock ≡ false
    → get_elem? (modify k2.procs i (λ p. record p { cwd = 0 })) i ≡ some p3
    → adopt_loop k2.current k2.initproc
        (length (modify k2.procs i (λ p. record p { cwd = 0 })))
        0
        (record k2 {
          ptable_lock = true;
          ncli = k2.ncli + 1;
          procs = map (wake p3.parent) (modify k2.procs i (λ p. record p { cwd = 0 }));
        })
      ≡ ok k5
    → k5.current ≡ suc i
    → k5.ptable_lock ≡ true
    → k5.ncli ≡ 1
    → get_elem? (modify k5.procs i to_zombie) i ≡ some (to_zombie q)
    → exit fileclose put_cwd k ≡ ok (record k5 { procs = modify k5.procs i to_zombie })
unfolding exit myproc acquire_ptable sched wakeup1
exit-eq fileclose put_cwd i k k1 k2 k5 p p1 p3 q a b c d e f g h j l m n o = ground arith

module _ (Held : ℕ → Kernel → Type 0) (fileclose put_cwd : ℕ → Kernel → Outcome Kernel) (i : ℕ)
    (k : Kernel) (p : Proc) (closes : Closes Held fileclose i) (skips : Skips Held i)
    (puts : Puts Held put_cwd i) (held : Held 0 k) (current : k.current ≡ suc i)
    (at : get_elem? k.procs i ≡ some p) (files : length p.ofile ≡ nofile)
    (unlocked : k.ptable_lock ≡ false) (no_locks : k.ncli ≡ 0) where
  -- Let `Held fd` say of a state that the files of the process from descriptor `fd` on and its
  -- directory can be released. In such a state with no lock held, let `fileclose` of an open
  -- descriptor of the process return, leave the caller's slot, the locks, `initproc` and the
  -- running process alone, and lead to `Held (fd + 1)`, which a descriptor that is not open gives
  -- at once; so for the release of the directory in the end. Then `exit`, called with no lock held
  -- by a process with NOFILE descriptors that is not init, comes to its switch to the scheduler:
  -- with `ptable.lock` alone held, the process a zombie with every descriptor closed and no
  -- directory, and no process left that is its child.
  pub exit-IsGone :
      k.initproc ≢ k.current
      → (k' : Kernel) × (exit fileclose put_cwd k ≡ ok k') × IsGone i k.current k'
  exit-IsGone ne =
      let (k1, p1, r1, a1, last) =
        close_loop-Closing Held fileclose i k.current k.initproc closes skips nofile 0 k p
          (omega arith)
          (record {
            current = refl;
            initproc = refl;
            lock = unlocked;
            ncli = no_locks;
            at = at;
            size = files;
            closed = λ g lt. absurd (omega arith);
          })
          held in
      let (k2, r2, s2) = puts k1 p1 last a1.lock a1.ncli a1.at in
      let at2 = s2.slot ∙ a1.at in
      let no_cwd : Proc → Proc = λ p. record p { cwd = 0 } in
      let at3 = get_elem?-modify_self k2.procs i no_cwd at2 in
      let at4 = get_elem?-map (wake p1.parent) (modify k2.procs i no_cwd) i at3 in
      let k4 = record k2 {
        ptable_lock = true;
        ncli = k2.ncli + 1;
        procs = map (wake p1.parent) (modify k2.procs i no_cwd);
      } in
      let cur2 : k2.current ≡ k.current = s2.current ∙ a1.current in
      let init2 : k2.initproc ≡ k.initproc = s2.initproc ∙ a1.initproc in
      let n2 : k2.ncli ≡ 0 = s2.ncli ∙ a1.ncli in
      let l2 : k2.ptable_lock ≡ false = s2.lock ∙ a1.lock in
      let fields = woken-fields true p1.parent (no_cwd p1) in
      let (k5, r5, c5, l5, n5, (q, at5), g5) =
        adopt_loop-IsGone i k.current k.initproc k4 (wake p1.parent (no_cwd p1)) ne current cur2
          refl (omega arith) at4 (fields.0) (ap length (fields.1) ∙ a1.size)
          (λ fd lt. ap (λ x. get_elem? x fd) (fields.1) ∙ a1.closed fd lt) in
      let len4 : length (map (wake p1.parent) (modify k2.procs i no_cwd))
          ≡ length (modify k2.procs i no_cwd) =
        map-length (wake p1.parent) (modify k2.procs i no_cwd) in
      (
        record k5 { procs = modify k5.procs i to_zombie },
        exit-eq fileclose put_cwd i k k1 k2 k5 p p1 (no_cwd p1) q current at (ground arith) r1 a1.at
            r2 l2 at3
            (ap (λ n. adopt_loop k2.current k2.initproc n 0 k4) (sym len4)
              ∙ ap₂ (λ a b. adopt_loop a b (length k4.procs) 0 k4) cur2 init2
              ∙ r5)
            (c5 ∙ current) l5 n5 (get_elem?-modify_self k5.procs i to_zombie at5),
        g5,
      )
