-- ===== src/Life/Adopt.antt =====
-- The loop of `exit` of proc.c that passes children on to init.
use a.Base.{
  get_elem?-ne-none, ◌≤◌, lt_of_get_elem?, ℕ, zero, suc, ◌+◌, ◌≤◌, ◌<◌, ◌≡◌, refl, sym, ap, ◌∙◌,
  inl, inr, Bool, true, false, ◌&&◌, some, List, [], ◌∷◌, map, arith, ◌==◌, if◌then◌else◌, ==_iff,
  Bool-cases, length, get_elem?, modify, ok, subst, some-injective, get_elem?-map,
  get_elem?-modify_self, get_elem?-modify_ne, lt_of_get_elem?, get_elem?-ne-none, length-modify,
}
use a.Kernel.{Kernel, Proc, is_zombie}
use a.Proc.{wake, wakeup1}
use a.Life.Leave.{adopt_slot, adopt_loop}

-- What becomes of a process: it has a new parent if `curproc` was its parent, and if it slept on
-- `init` and a dead child woke that, it is runnable.
abbrev pub adopted : ℕ → ℕ → Proc → Proc
adopted curproc init p = if p.parent == curproc then record p { parent = init } else p

abbrev pub woken : Bool → ℕ → Proc → Proc
woken w init p = if w then wake init p else p

abbrev pub is_dead_child : ℕ → Proc → Bool
is_dead_child curproc p = (p.parent == curproc) && is_zombie p.state

length-map : (f : Proc → Proc) (xs : List Proc) → length (map f xs) ≡ length xs
length-map f [] = refl
length-map f (x ∷ xs) = ap suc (length-map f xs)

module _ (curproc init : ℕ) (ps0 : List Proc) where
  -- The loop at slot `i`, with init woken or not.
  record Adopting (i : ℕ) (w : Bool) (ps : List Proc) : Type 0 where
    same : length ps ≡ length ps0
    passed :
        (j : ℕ) (p : Proc)
        → j < i
        → get_elem? ps0 j ≡ some p
        → get_elem? ps j ≡ some (woken w init (adopted curproc init p))
    coming :
        (j : ℕ) (p : Proc)
        → i ≤ j
        → get_elem? ps0 j ≡ some p
        → get_elem? ps j ≡ some (woken w init p)
    -- It is woken if a dead child has been passed on.
    dead :
        w ≡ true
        → (j : ℕ) × (p : Proc) × (get_elem? ps0 j ≡ some p) × (is_dead_child curproc p ≡ true)
    none_dead :
        w ≡ false
        → (j : ℕ) (p : Proc) → j < i
        → get_elem? ps0 j ≡ some p
        → is_dead_child curproc p ≡ false

  woken-twice : (w : Bool) (p : Proc) → wake init (woken w init p) ≡ woken true init p
  woken-twice w p = ground arith

  woken-parent : (w : Bool) (p : Proc) → (woken w init p).parent ≡ p.parent
  woken-parent w p = ground arith

  woken-zombie : (w : Bool) (p : Proc) → is_zombie (woken w init p).state ≡ is_zombie p.state
  woken-zombie w p = ground arith

  woken-adopt :
      (w : Bool) (p : Proc)
      → (p.parent == curproc) ≡ true
      → record (woken w init p) { parent = init } ≡ woken w init (adopted curproc init p)
  woken-adopt w p e = ground arith

  -- The table at slot `i + 1`, before the wakeup that a dead child causes.
  record Passed (i : ℕ) (w : Bool) (ps : List Proc) : Type 0 where
    same : length ps ≡ length ps0
    passed :
        (j : ℕ) (p : Proc)
        → j < i
        → get_elem? ps0 j ≡ some p
        → get_elem? ps j ≡ some (woken w init (adopted curproc init p))
    coming :
        (j : ℕ) (p : Proc)
        → i ≤ j
        → get_elem? ps0 j ≡ some p
        → get_elem? ps j ≡ some (woken w init p)

  Passed-other :
      (i : ℕ) (w : Bool) (ps : List Proc) (p : Proc)
      → get_elem? ps0 i ≡ some p
      → (p.parent == curproc) ≡ false
      → Adopting i w ps
      → Passed (i + 1) w ps
  Passed-other i w ps p at e a = record {
    same = a.same;
    passed = λ j q lt g. elim (Bool-cases (j == i)) [
      | inl t ↦
          let z : i ≡ j = sym ((==_iff j i).0 t) in
          let at' : get_elem? ps0 j ≡ some p = subst (λ x. get_elem? ps0 x ≡ some p) z at in
          let pq : p ≡ q = some-injective _ _ (sym at' ∙ g) in
          let same : adopted curproc init p ≡ p = rw e refl in
          let same' : adopted curproc init q ≡ q =
            subst (λ x. adopted curproc init x ≡ x) pq same in
          a.coming j q (omega arith) g ∙ ap (λ x. some (woken w init x)) (sym same')
      | inr t ↦ a.passed j q (ground arith) g
    ];
    coming = λ j q le g. a.coming j q (omega arith) g;
  }

  Passed-child :
      (i : ℕ) (w : Bool) (ps : List Proc) (p : Proc)
      → get_elem? ps0 i ≡ some p
      → (p.parent == curproc) ≡ true
      → Adopting i w ps
      → Passed (i + 1) w (modify ps i (λ p. record p { parent = init }))
  Passed-child i w ps p at e a = record {
    same = length-modify ps i (λ p. record p { parent = init }) ∙ a.same;
    passed = λ j q lt g. elim (Bool-cases (j == i)) [
      | inl t ↦
          let z : i ≡ j = sym ((==_iff j i).0 t) in
          let at' : get_elem? ps0 j ≡ some p = subst (λ x. get_elem? ps0 x ≡ some p) z at in
          let pq : p ≡ q = some-injective _ _ (sym at' ∙ g) in
          let here =
            get_elem?-modify_self ps i (λ p. record p { parent = init })
              (a.coming i p (omega arith) at) in
          let here' =
            subst
              (λ x.
                get_elem? (modify ps i (λ p. record p { parent = init })) x
                ≡ some (record (woken w init p) { parent = init }))
              z here in
          here'
          ∙ ap (λ x. some x) (woken-adopt w p e)
          ∙ ap (λ x. some (woken w init (adopted curproc init x))) pq
      | inr t ↦
          get_elem?-modify_ne ps i j (λ p. record p { parent = init }) (ground arith)
          ∙ a.passed j q (ground arith) g
    ];
    coming = λ j q le g.
        get_elem?-modify_ne ps i j (λ p. record p { parent = init }) (omega arith)
        ∙ a.coming j q (omega arith) g;
  }

  Passed-woken :
      (i : ℕ) (w : Bool) (ps : List Proc) → Passed i w ps → Passed i true (map (wake init) ps)
  Passed-woken i w ps a = record {
    same = length-map (wake init) ps ∙ a.same;
    passed = λ j p lt g.
        get_elem?-map (wake init) ps j (a.passed j p lt g)
        ∙ ap (λ x. some x) (woken-twice w (adopted curproc init p));
    coming = λ j p le g.
        get_elem?-map (wake init) ps j (a.coming j p le g) ∙ ap (λ x. some x) (woken-twice w p);
  }

  module _ (i : ℕ) (k : Kernel) (q : Proc) (at : get_elem? k.procs i ≡ some q) where
    adopt_slot-other : (q.parent == curproc) ≡ false → adopt_slot curproc init i k ≡ ok k
    unfolding adopt_slot
    adopt_slot-other e = ground arith

    adopt_slot-alive :
        (q.parent == curproc) ≡ true
        → is_zombie q.state ≡ false
        → adopt_slot curproc init i k
          ≡ ok (record k { procs = modify k.procs i (λ p. record p { parent = init }) })
    unfolding adopt_slot
    adopt_slot-alive e z = ground arith

    adopt_slot-dead :
        (q.parent == curproc) ≡ true
        → is_zombie q.state ≡ true
        → adopt_slot curproc init i k
          ≡ ok (record k {
            procs = map (wake init) (modify k.procs i (λ p. record p { parent = init }));
          })
    unfolding adopt_slot wakeup1
    adopt_slot-dead e z = ground arith

  none_dead-suc :
      (i : ℕ) (p : Proc)
      → get_elem? ps0 i ≡ some p
      → is_dead_child curproc p ≡ false
      → ((j : ℕ) (p : Proc) → j < i → get_elem? ps0 j ≡ some p → is_dead_child curproc p ≡ false)
      → (j : ℕ) (q : Proc) → j < i + 1
      → get_elem? ps0 j ≡ some q
      → is_dead_child curproc q ≡ false
  none_dead-suc i p at e rest j q lt g = elim (Bool-cases (j == i)) [
    | inl t ↦
        let z : i ≡ j = sym ((==_iff j i).0 t) in
        let at' : get_elem? ps0 j ≡ some p = subst (λ x. get_elem? ps0 x ≡ some p) z at in
        subst (λ x. is_dead_child curproc x ≡ false) (some-injective _ _ (sym at' ∙ g)) e
    | inr t ↦ rest j q (ground arith) g
  ]

  -- One step of the loop keeps the invariant.
  adopt_slot-Adopting :
      (i : ℕ) (w : Bool) (k : Kernel) (p : Proc)
      → get_elem? ps0 i ≡ some p
      → Adopting i w k.procs
      → (w' : Bool) × (ps : List Proc) × (adopt_slot curproc init i k
          ≡ ok (record k { procs = ps }))
        × Adopting (i + 1) w' ps
  adopt_slot-Adopting i w k p at a =
      let here = a.coming i p (omega arith) at in
      let q = woken w init p in
      let wp = ap (λ x. x == curproc) (woken-parent w p) in
      let wz = woken-zombie w p in
      elim (Bool-cases (p.parent == curproc)) [
        | inr other ↦
            let h = Passed-other i w k.procs p at other a in
            (
              w,
              k.procs,
              adopt_slot-other i k q here (wp ∙ other),
              record {
                same = h.same;
                passed = h.passed;
                coming = h.coming;
                dead = a.dead;
                none_dead = λ f. none_dead-suc i p at (rw other refl) (a.none_dead f);
              },
            )
        | inl mine ↦ elim (Bool-cases (is_zombie p.state)) [
          | inr alive ↦
              let h = Passed-child i w k.procs p at mine a in
              (
                w,
                modify k.procs i (λ p. record p { parent = init }),
                adopt_slot-alive i k q here (wp ∙ mine) (wz ∙ alive),
                record {
                  same = h.same;
                  passed = h.passed;
                  coming = h.coming;
                  dead = a.dead;
                  none_dead = λ f. none_dead-suc i p at (rw (mine, alive) refl) (a.none_dead f);
                },
              )
          | inl gone ↦
              let h =
                Passed-woken (i + 1) w (modify k.procs i (λ p. record p { parent = init }))
                  (Passed-child i w k.procs p at mine a) in
              (
                true,
                map (wake init) (modify k.procs i (λ p. record p { parent = init })),
                adopt_slot-dead i k q here (wp ∙ mine) (wz ∙ gone),
                record {
                  same = h.same;
                  passed = h.passed;
                  coming = h.coming;
                  dead = λ _. (i, p, at, (rw (mine, gone) refl));
                  none_dead = λ f j q lt g. absurd cc;
                },
              )
        ]
      ]

  adopt_loop-Adopting :
      (n i : ℕ) (w : Bool) (k : Kernel)
      → i + n ≡ length ps0
      → Adopting i w k.procs
      → (w' : Bool) × (ps : List Proc) × (adopt_loop curproc init n i k
          ≡ ok (record k { procs = ps }))
        × Adopting (i + n) w' ps
  unfolding adopt_loop
  adopt_loop-Adopting zero i w k e a =
      (w, k.procs, refl, (let z : i + 0 ≡ i = omega arith in rw z a))
  adopt_loop-Adopting (suc n) i w k e a =
      let (p, at) = get_elem?-ne-none ps0 i (omega arith) in
      let (w1, ps1, r1, a1) = adopt_slot-Adopting i w k p at a in
      let (w2, ps2, r2, a2) =
        adopt_loop-Adopting n (i + 1) w1 (record k { procs = ps1 }) (omega arith) a1 in
      let z : i + suc n ≡ i + 1 + n = omega arith in (w2, ps2, (rw r1 r2), rw z a2)

-- The loop of `exit` over the process table passes every child of `curproc` on to init and changes
-- nothing else, but that the processes that sleep on init's address are woken exactly if a child
-- passed on is dead.
pub adopt_loop_lem :
    (curproc init : ℕ) (k : Kernel)
    → (w : Bool) × (ps : List Proc) × (adopt_loop curproc init (length k.procs) 0 k
        ≡ ok (record k { procs = ps }))
      × (length ps ≡ length k.procs)
      × ((j : ℕ) (p : Proc)
          → get_elem? k.procs j ≡ some p
          → get_elem? ps j ≡ some (woken w init (adopted curproc init p)))
      × (w ≡ true
          → (j : ℕ) × (p : Proc) × (get_elem? k.procs j ≡ some p)
            × (is_dead_child curproc p ≡ true))
      × (w ≡ false
          → (j : ℕ) (p : Proc) → get_elem? k.procs j ≡ some p
          → is_dead_child curproc p ≡ false)
adopt_loop_lem curproc init k =
    let (w, ps, r, a) =
      adopt_loop-Adopting curproc init k.procs (length k.procs) 0 false k (omega arith) (record {
        same = refl;
        passed = λ j p lt. absurd (omega arith);
        coming = λ j p le g. g;
        dead = λ f. absurd cc;
        none_dead = λ f j p lt. absurd (omega arith);
      }) in
    let inside = λ (j : ℕ) (p : Proc) (g : get_elem? k.procs j ≡ some p).
      let lt = lt_of_get_elem? k.procs j g in let q : j < 0 + length k.procs = omega arith in q in
    (
      w,
      ps,
      r,
      a.same,
      (λ j p g. a.passed j p (inside j p g) g),
      a.dead,
      (λ f j p g. a.none_dead f j p (inside j p g) g),
    )
