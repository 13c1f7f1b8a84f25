-- ===== src/Container/Destroy.antt =====
-- `destroyContainer` of proc.c: who is killed, and what an id outside the table does.
use a.Base.{
  map, sym, ap, ◌∙◌, get_elem?-map, get_elem?-modify_self, get_elem?-modify_ne, ℕ, zero, suc, ◌+◌,
  ◌-◌, ◌≤◌, ◌<◌, ◌≡◌, refl, ◌≢◌, inl, inr, true, some, List, [], ◌∷◌, arith, ◌==◌, if◌then◌else◌,
  Bool-cases, length, get_elem?, modify, ok, get_elem?-ne-none, some-injective, map-modify,
  length-modify, false, set, fault, get_elem?-eq_none, get_elem?-set_self, lt_of_get_elem?,
}
use mathlib.Core.Option
use a.Kernel.{runnable, is_sleeping, cunused, Container, Kernel, Proc}
use a.Proc.{mark_killed}
use a.Proc.Pids.{PidsOk, Unique, PidsOk-same, Unique-index}
use a.Proc.Kill.{FirstWith-unique, FirstWith, kill_loop-modify, FirstWith-of_Unique}
use a.Container.{
  evict_slot, cunused, destroy_container, evict_loop, close_container, Container, is_sleeping,
}

-- What becomes of a process when container `id` is destroyed.
abbrev pub evicted : ℕ → Proc → Proc
evicted id p = if p.container_id == id then mark_killed p else p

evicted_pid : (id : ℕ) (p : Proc) → (evicted id p).pid ≡ p.pid
evicted_pid id p = ground arith

-- Some slot has the pid: there is a first.
first_exists :
    (ps : List Proc) (i pid : ℕ) {p : Proc}
    → get_elem? ps i ≡ some p
    → p.pid ≡ pid
    → (m : ℕ) × (q : Proc) × FirstWith pid m ps × (get_elem? ps m ≡ some q) × (q.pid ≡ pid)
first_exists [] i pid at e = cc
first_exists (q ∷ qs) zero pid at e = (0, q, ground arith, refl, ground arith)
first_exists (q ∷ qs) (suc i) pid at e = elim (Bool-cases (q.pid == pid)) [
  | inl y ↦ (0, q, ground arith, refl, ground arith)
  | inr n ↦
      let (m, r, f, at', e') = first_exists qs i pid at e in (suc m, r, (ground arith, f), at', e')
]

-- The state of `destroyContainer` between two rounds of its second loop: the lock is held, slots
-- below `i` are done. Slots with pid 0 hold no process and are left out.
record Between (id i : ℕ) (k0 k : Kernel) : Type 0 where
  locked : k.ptable_lock ≡ true
  pids_ok : PidsOk k
  len : length k.procs ≡ length k0.procs
  done :
      (j : ℕ) (p : Proc)
      → get_elem? k0.procs j ≡ some p
      → p.pid ≢ 0
      → j < i
      → get_elem? k.procs j ≡ some (evicted id p)
  todo :
      (j : ℕ) (p : Proc)
      → get_elem? k0.procs j ≡ some p
      → p.pid ≢ 0
      → i ≤ j
      → get_elem? k.procs j ≡ some p
  closed_cont :
      get_elem? k.conts id
      ≡ Option.map {A = Container} {B = Container}
          (λ c. record c { state = cunused })
          (get_elem? k0.conts id)
  closed_flag : get_elem? k.containers id ≡ some 0
  unlocked : k.ctable_lock ≡ false

-- the state after a round that kills the process of slot `m`
abbrev round_killed : ℕ → Kernel → Kernel
round_killed m k = record k {
  procs = modify k.procs m mark_killed;
  ncli = k.ncli - 1 + 1 - 1 + 1;
  ptable_lock = true;
}

evict_slot-kills :
    (id i m : ℕ) (k : Kernel) (p : Proc)
    → k.ptable_lock ≡ true
    → get_elem? k.procs i ≡ some p
    → p.container_id ≡ id
    → FirstWith p.pid m k.procs
    → evict_slot id i k ≡ ok (round_killed m k)
unfolding evict_slot
evict_slot-kills id i m k p lk at e f = ground (arith, kill_loop-modify p.pid m k.procs f)

evict_slot-skips :
    (id i : ℕ) (k : Kernel) (p : Proc)
    → get_elem? k.procs i ≡ some p
    → p.container_id ≢ id
    → evict_slot id i k ≡ ok k
unfolding evict_slot
evict_slot-skips id i k p at ne = ground arith

-- The kill of a round reaches no live process but that of its own slot `i`.
round_live :
    (ps : List Proc) (i m j : ℕ) (p q r : Proc)
    → Unique (map (λ (s : Proc). s.pid) ps)
    → get_elem? ps i ≡ some p
    → get_elem? ps m ≡ some q
    → FirstWith p.pid m ps
    → q.pid ≡ p.pid
    → get_elem? ps j ≡ some r
    → r.pid ≢ 0
    → get_elem? (modify ps m mark_killed) j ≡ some (if j == i then mark_killed r else r)
round_live ps i m j p q r u ati atm f e atj nz = elim (Bool-cases (j == m)) [
  | inl y ↦
      let jm : j ≡ m = ground arith in
      let rq : r ≡ q = some-injective r q (sym atj ∙ ap (get_elem? ps) jm ∙ atm) in
      let rp : r.pid ≡ p.pid = ap (λ (s : Proc). s.pid) rq ∙ e in
      let ji : j ≡ i =
        Unique-index (map (λ (s : Proc). s.pid) ps) j i p.pid u
          (get_elem?-map (λ (s : Proc). s.pid) ps j atj ∙ ap some rp)
          (get_elem?-map (λ (s : Proc). s.pid) ps i ati) (λ z. nz (rp ∙ z)) in
      let t : (j == i) ≡ true = ground arith in
      rw (t, ← jm) (get_elem?-modify_self ps j mark_killed atj)
  | inr n ↦
      let same = get_elem?-modify_ne ps m j mark_killed (ground arith) ∙ atj in
      elim (Bool-cases (j == i)) [
        | inl y ↦
            let ji : j ≡ i = ground arith in
            let rp : r ≡ p = some-injective r p (sym atj ∙ ap (get_elem? ps) ji ∙ ati) in
            let first =
              FirstWith-of_Unique p.pid ps i p u (λ z. nz (ap (λ (s : Proc). s.pid) rp ∙ z)) ati
                refl in
            absurd (
              let mi = FirstWith-unique p.pid m i ps f first in
              let nn : j ≢ m = ground arith in nn (ji ∙ sym mi))
        | inr z ↦ rw z same
      ]
]

-- One round of the loop.
evict_slot-Between :
    (id i : ℕ) (k0 k : Kernel)
    → Between id i k0 k
    → i < length k0.procs
    → (k' : Kernel) × (evict_slot id i k ≡ ok k') × Between id (i + 1) k0 k'
evict_slot-Between id i k0 k b lt =
    let (p, at) = get_elem?-ne-none k.procs i (let l = b.len in omega arith) in
    elim (Bool-cases (p.container_id == id)) [
      | inl y ↦
          let (m, q, f, atm, e) = first_exists k.procs i p.pid at refl in
          let hit = λ (j : ℕ) (r : Proc) (a : get_elem? k.procs j ≡ some r) (nz : r.pid ≢ 0).
            round_live k.procs i m j p q r b.pids_ok.unique at atm f e a nz in
          (
            round_killed m k,
            evict_slot-kills id i m k p b.locked at (ground arith) f,
            record {
              locked = refl;
              pids_ok =
                  PidsOk-same k (round_killed m k) b.pids_ok
                    (map-modify (λ (s : Proc). s.pid) k.procs m mark_killed (λ s. refl)) refl;
              len = length-modify k.procs m mark_killed ∙ b.len;
              done = λ j r a nz l. elim (Bool-cases (j == i)) [
                | inl z ↦
                    let ji : j ≡ i = ground arith in
                    let now = b.todo j r a nz (omega arith) in
                    let rp : r ≡ p =
                      some-injective r p (sym now ∙ ap (get_elem? k.procs) ji ∙ at) in
                    let c : (r.container_id == id) ≡ true =
                      ap (λ (s : Proc). s.container_id == id) rp ∙ y in
                    rw c (rw z at (hit j r now nz))
                | inr z ↦
                    let was = b.done j r a nz (ground arith) in
                    let live : (evicted id r).pid ≢ 0 = rw (evicted_pid id r) nz in
                    rw z at (hit j (evicted id r) was live)
              ];
              todo = λ j r a nz l.
                  let t : (j == i) ≡ false = ground arith in
                  rw t at (hit j r (b.todo j r a nz (omega arith)) nz);
              closed_cont = b.closed_cont;
              closed_flag = b.closed_flag;
              unlocked = b.unlocked;
            },
          )
      | inr n ↦ (
        k,
        evict_slot-skips id i k p at (ground arith),
        record {
          locked = b.locked;
          pids_ok = b.pids_ok;
          len = b.len;
          done = λ j r a nz l. elim (Bool-cases (j == i)) [
            | inl y ↦
                let ji : j ≡ i = ground arith in
                let now = b.todo j r a nz (omega arith) in
                let rp : r ≡ p = some-injective r p (sym now ∙ ap (get_elem? k.procs) ji ∙ at) in
                let c : r.container_id ≡ p.container_id = ap (λ (s : Proc). s.container_id) rp in
                now ∙ ground arith
            | inr z ↦ b.done j r a nz (ground arith)
          ];
          todo = λ j r a nz l. b.todo j r a nz (omega arith);
          closed_cont = b.closed_cont;
          closed_flag = b.closed_flag;
          unlocked = b.unlocked;
        },
      )
    ]

evict_loop-Between :
    (id n i : ℕ) (k0 k : Kernel)
    → i + n ≡ length k0.procs
    → Between id i k0 k
    → (k' : Kernel) × (evict_loop id n i k ≡ ok k') × Between id (length k0.procs) k0 k'
unfolding evict_loop
evict_loop-Between id zero i k0 k e b =
    (k, refl, let e' : i ≡ length k0.procs = omega arith in rw (← e') b)
evict_loop-Between id (suc n) i k0 k e b =
    let (k1, r, b1) = evict_slot-Between id i k0 k b (omega arith) in
    let (k', r', b') = evict_loop-Between id n (i + 1) k0 k1 (omega arith) b1 in (k', rw r r', b')

-- the state in which the second loop starts
abbrev closed : ℕ → Kernel → Kernel
closed id k = record k {
  conts = modify k.conts id (λ c. record c { state = cunused });
  containers = set k.containers id 0;
  ncli = k.ncli + 1 - 1 + 1;
  ctable_lock = false;
  ptable_lock = true;
}

-- `destroyContainer` of an id in the tables returns with both locks released. The container is
-- CUNUSED and its flag 0. Of the slots that hold a process (those with a pid), the members of the
-- container have been killed and moved to container 0, and all others are as they were.
pub destroy_container_lem :
    (id : ℕ) (k : Kernel) (c : Container) (flag : ℕ)
    → k.ctable_lock ≡ false
    → k.ptable_lock ≡ false
    → PidsOk k
    → get_elem? k.conts id ≡ some c
    → get_elem? k.containers id ≡ some flag
    → (k' : Kernel) × (destroy_container id k ≡ ok k')
      × ((j : ℕ) (p : Proc)
          → get_elem? k.procs j ≡ some p
          → p.pid ≢ 0
          → get_elem? k'.procs j
            ≡ some (
                if p.container_id == id
                then record p {
                  killed = true;
                  container_id = 0;
                  state = if is_sleeping p.state then runnable else p.state;
                }
                else p))
      × (get_elem? k'.conts id ≡ some (record c { state = cunused }))
      × (get_elem? k'.containers id ≡ some 0)
      × PidsOk k'
      × ((k'.ctable_lock ≡ false) × (k'.ptable_lock ≡ false))
unfolding destroy_container close_container
destroy_container_lem id k c flag uc up v atc atf =
    let start : Between id 0 k (closed id k) = record {
      locked = refl;
      pids_ok = PidsOk-same k (closed id k) v refl refl;
      len = refl;
      done = λ j p a nz l. absurd (omega arith);
      todo = λ j p a nz l. a;
      closed_cont = rw atc (get_elem?-modify_self k.conts id _ atc);
      closed_flag = get_elem?-set_self k.containers id 0 (lt_of_get_elem? k.containers id atf);
      unlocked = refl;
    } in
    let (k1, r, b) = evict_loop-Between id (length k.procs) 0 k (closed id k) (omega arith) start in
    (
      record k1 { ptable_lock = false; ncli = k1.ncli - 1 },
      ground arith,
      (λ j p a nz. b.done j p a nz (lt_of_get_elem? k.procs j a)),
      rw atc at b.closed_cont,
      b.closed_flag,
      PidsOk-same k1 _ b.pids_ok refl refl,
      (b.unlocked, refl),
    )

-- An id that is not checked against the tables is used as an index: the system call runs off the
-- end of the arrays.
pub destroy_container-out_of_range :
    (id : ℕ) (k : Kernel)
    → k.ctable_lock ≡ false
    → length k.conts ≤ id
    → destroy_container id k ≡ fault
unfolding destroy_container close_container
destroy_container-out_of_range id k un le = ground (arith, get_elem?-eq_none k.conts id le)
