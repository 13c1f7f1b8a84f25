-- ===== src/Log/Admission.antt =====
-- `begin_op`, `log_write` and `end_op` of log.c: the blocks that admitted operations may write.
use a.Base.{
  length-set, Outcome, panic, fault, ltb, ◌++◌, ℕ, zero, suc, ◌+◌, ◌-◌, ◌*◌, ◌≤◌, ◌<◌, ◌≡◌, refl,
  sym, ap, ◌∙◌, ◌⊎◌, inl, inr, true, false, some, List, [], ◌∷◌, arith, ◌==◌, Bool-cases, length,
  get_elem?, set, All, ok, lt_of_get_elem?, get_elem?-All, some-injective,
}
use a.Log.{
  Log, log_size, max_op_blocks, commit, acquire, release, entered, begin_op, end_op, absorb,
  log_write,
}
use a.Log.Frame.{commit-frame, commit-blocks, absorb-length, absorb-Distinct, Distinct}
use a.Log.Install.{has}

abbrev sum : List ℕ → ℕ
sum [] = 0
sum (x ∷ xs) = x + sum xs

-- The log, and for each operation between its `begin_op` and `end_op` the number of blocks that it
-- may still write.
pub record System : Type 0 where
  pub log : Log
  pub budgets : List ℕ

abbrev remove : List ℕ → ℕ → List ℕ
remove [] i = []
remove (x ∷ xs) zero = xs
remove (x ∷ xs) (suc i) = x ∷ remove xs i

-- One call by one process.
pub data Step (s : System) : System → Type 0 where
  enters :
      (l : Log)
      → begin_op s.log ≡ ok (entered l)
      → Step s (record { log = l; budgets = max_op_blocks ∷ s.budgets })
  writes :
      (i k b : ℕ) (l : Log)
      → get_elem? s.budgets i ≡ some (suc k)
      → log_write b s.log ≡ ok l
      → Step s (record { log = l; budgets = set s.budgets i k })
  leaves :
      (i k : ℕ) (l : Log)
      → get_elem? s.budgets i ≡ some k
      → end_op s.log ≡ ok l
      → Step s (record { log = l; budgets = remove s.budgets i })

pub data Reachable (s : System) : System → Type 0 where
  start : Reachable s s
  step : {t u : System} → Reachable s t → Step t u → Reachable s u

pub record IsAdmitted (s : System) : Type 0 where
  pub unlocked : s.log.lock ≡ false
  pub idle : s.log.committing ≡ false
  pub room : length s.log.blocks + sum s.budgets ≤ log_size
  pub counted : length s.budgets ≡ s.log.outstanding
  pub bounded : All (λ k. k ≤ max_op_blocks) s.budgets
  pub distinct : Distinct s.log.blocks

Distinct-of_empty : (bs : List ℕ) → length bs ≡ 0 → Distinct bs
Distinct-of_empty [] e = tt
Distinct-of_empty (x ∷ xs) e = absurd (omega arith)

sum-set :
    (xs : List ℕ) (i : ℕ) {k : ℕ} → get_elem? xs i ≡ some (suc k) → sum (set xs i k) + 1 ≡ sum xs
sum-set [] i h = cc
sum-set (x ∷ xs) zero h = let e = some-injective _ _ h in omega arith
sum-set (x ∷ xs) (suc i) h = let r = sum-set xs i h in omega arith

sum-remove : (xs : List ℕ) (i : ℕ) → sum (remove xs i) ≤ sum xs
sum-remove [] i = omega arith
sum-remove (x ∷ xs) zero = omega arith
sum-remove (x ∷ xs) (suc i) = let r = sum-remove xs i in omega arith

length-remove :
    (xs : List ℕ) (i : ℕ) {k : ℕ} → get_elem? xs i ≡ some k → length (remove xs i) + 1 ≡ length xs
length-remove [] i h = cc
length-remove (x ∷ xs) zero h = omega arith
length-remove (x ∷ xs) (suc i) h = let r = length-remove xs i h in omega arith

abbrev AllWithin : List ℕ → Type 0
AllWithin = All (λ k. k ≤ max_op_blocks)

remove-AllWithin : (xs : List ℕ) (i : ℕ) → AllWithin xs → AllWithin (remove xs i)
remove-AllWithin [] i h = tt
remove-AllWithin (x ∷ xs) zero h = h.1
remove-AllWithin (x ∷ xs) (suc i) h = (h.0, remove-AllWithin xs i h.1)

set-AllWithin : (xs : List ℕ) (i k : ℕ) → k ≤ max_op_blocks → AllWithin xs → AllWithin (set xs i k)
set-AllWithin [] i k le h = tt
set-AllWithin (x ∷ xs) zero k le h = (le, h.1)
set-AllWithin (x ∷ xs) (suc i) k le h = (h.0, set-AllWithin xs i k le h.1)

sum-AllWithin : (xs : List ℕ) → AllWithin xs → sum xs ≤ length xs * max_op_blocks
sum-AllWithin [] h = omega arith
sum-AllWithin (x ∷ xs) h = let r = sum-AllWithin xs h.1 in let q = h.0 in omega arith

-- What `log_write` leaves when it returns.
log_write-ok :
    (l l' : Log) (b : ℕ)
    → l.lock ≡ false
    → log_write b l ≡ ok l'
    → l' ≡ record l { lock = false; blocks = absorb b l.blocks; dirty = b ∷ l.dirty }
unfolding log_write acquire release
log_write-ok l l' b u e = ground arith

begin_op-entered :
    (l l' : Log)
    → l.lock ≡ false
    → begin_op l ≡ ok (entered l')
    → (l' ≡ record l { lock = false; outstanding = l.outstanding + 1 })
      × (length l.blocks + (l.outstanding + 1) * max_op_blocks ≤ log_size)
unfolding begin_op acquire release
begin_op-entered l l' u e = ground arith

-- The state that `end_op` leaves.
record Left (l l' : Log) : Type 0 where
  lock : l'.lock ≡ false
  committing : l'.committing ≡ false
  outstanding : l'.outstanding ≡ l.outstanding - 1
  blocks : (l'.blocks ≡ l.blocks) ⊎ (length l'.blocks ≡ 0)

end_op-last :
    (l : Log)
    → l.lock ≡ false
    → l.committing ≡ false
    → (l.outstanding - 1 == 0) ≡ true
    → (l0 : Log)
    → l0 ≡ record l { lock = false; outstanding = l.outstanding - 1; committing = true }
    → end_op l ≡ ok (record (commit l0) { lock = false; committing = false })
unfolding end_op acquire release
end_op-last l u c t l0 e =
    let lk : (commit l0).lock ≡ false = ap (λ f. f.0) (commit-frame l0) ∙ ap (λ y. y.lock) e in
    rw (u, c, t, sym e, lk) refl

end_op-other :
    (l : Log)
    → l.lock ≡ false
    → l.committing ≡ false
    → (l.outstanding - 1 == 0) ≡ false
    → end_op l ≡ ok (record l { lock = false; outstanding = l.outstanding - 1 })
unfolding end_op acquire release
end_op-other l u c t = rw (u, c, t) refl

end_op-Left : (l l' : Log) → l.lock ≡ false → l.committing ≡ false → end_op l ≡ ok l' → Left l l'
end_op-Left l l' u c e = elim (Bool-cases (l.outstanding - 1 == 0)) [
  | inl t ↦
      let l0 : Log = record l {
        lock = false;
        outstanding = l.outstanding - 1;
        committing = true;
      } in
      let f = commit-frame l0 in
      let b = commit-blocks l0 in
      let r = end_op-last l u c t l0 refl in
      let q : l' ≡ record (commit l0) { lock = false; committing = false } = cc in
      rw q (record {
        lock = refl;
        committing = refl;
        outstanding = ap (λ f. f.1.1.0) f;
        blocks = inr b;
      })
  | inr t ↦
      let r = end_op-other l u c t in
      let q : l' ≡ record l { lock = false; outstanding = l.outstanding - 1 } = cc in
      rw q (record { lock = refl; committing = c; outstanding = refl; blocks = inl refl })
]

Step-IsAdmitted : {s t : System} → Step s t → IsAdmitted s → IsAdmitted t
Step-IsAdmitted {s} (enters l e) w =
    let r = begin_op-entered s.log l w.unlocked e in
    let q = sum-AllWithin s.budgets w.bounded in
    let n = w.counted in
    rw r.0 (record {
      unlocked = refl;
      idle = w.idle;
      room = omega (arith, r.1);
      counted = omega arith;
      bounded = (omega arith, w.bounded);
      distinct = w.distinct;
    })
Step-IsAdmitted {s} (writes i k b l at e) w =
    let q = sum-set s.budgets i at in
    let room = w.room in
    let n = w.counted in
    let lt = lt_of_get_elem? s.budgets i at in
    let z = log_write-ok s.log l b w.unlocked e in
    let small = get_elem?-All (λ k. k ≤ max_op_blocks) s.budgets i w.bounded at in
    let a = absorb-length b s.log.blocks in
    rw z (record {
      unlocked = refl;
      idle = w.idle;
      room = omega arith;
      counted = length-set s.budgets i k ∙ n;
      bounded = set-AllWithin s.budgets i k (omega arith) w.bounded;
      distinct = absorb-Distinct b s.log.blocks w.distinct;
    })
Step-IsAdmitted {s} (leaves i k l at e) w =
    let r = end_op-Left s.log l w.unlocked w.idle e in
    let q = sum-remove s.budgets i in
    let room = w.room in
    let out = r.outstanding in
    let n = w.counted in
    let len = length-remove s.budgets i at in
    record {
      unlocked = r.lock;
      idle = r.committing;
      room = elim r.blocks [
        | inl same ↦ let c = ap length same in omega arith
        | inr empty ↦ omega arith
      ];
      counted = omega arith;
      bounded = remove-AllWithin s.budgets i w.bounded;
      distinct = elim r.blocks [
        | inl same ↦ rw same w.distinct
        | inr empty ↦ Distinct-of_empty l.blocks empty
      ];
    }

-- Let a log of any size start unlocked, with no commit under way, with distinct block
-- numbers, and with 30 places at least for its blocks and what its operations may still write, of
-- which each is one of `outstanding` and writes at most 10. Then every state that calls of
-- `begin_op`, of `log_write` within an operation's 10 blocks and of `end_op` lead to is such a state.
pub Reachable-IsAdmitted : (s t : System) → IsAdmitted s → Reachable s t → IsAdmitted t
Reachable-IsAdmitted s t w start = w
Reachable-IsAdmitted s t w (step r e) = Step-IsAdmitted e (Reachable-IsAdmitted s _ w r)

-- The log has the block, once and pinned, and `log_write` changed nothing else.
pub record Entered (b : ℕ) (l l' : Log) : Type 0 where
  pub rest : l' ≡ record l { lock = false; blocks = l'.blocks; dirty = b ∷ l.dirty }
  pub blocks :
      ((has b l.blocks ≡ true) × (l'.blocks ≡ l.blocks))
      ⊎ ((has b l.blocks ≡ false) × (l'.blocks ≡ l.blocks ++ b ∷ []))
  pub once : Distinct l'.blocks

-- What a `log_write` does: it enters the block if fewer than `size - 1` are in the log, and else panics.
pub Enters : ℕ → Log → Outcome Log → Type 0
Enters b l (ok l') = (length l.blocks + 1 < l.size) × Entered b l l'
Enters b l panic = (l.size ≤ length l.blocks + 1) × (length l.blocks < log_size)
Enters b l fault = ⊥

absorb-cases :
    (b : ℕ) (bs : List ℕ)
    → ((has b bs ≡ true) × (absorb b bs ≡ bs)) ⊎ ((has b bs ≡ false) × (absorb b bs ≡ bs ++ b ∷ []))
unfolding absorb
absorb-cases b [] = inr (refl, refl)
absorb-cases b (x ∷ xs) = let h = absorb-cases b xs in ground arith

log_write-room :
    (l : Log) (b : ℕ)
    → l.lock ≡ false
    → length l.blocks < log_size
    → length l.blocks + 1 < l.size
    → 1 ≤ l.outstanding
    → log_write b l
      ≡ ok (record l { lock = false; blocks = absorb b l.blocks; dirty = b ∷ l.dirty })
unfolding log_write acquire release
log_write-room l b u few size out = ground arith

log_write-full : (l : Log) (b : ℕ) → l.size ≤ length l.blocks + 1 → log_write b l ≡ panic
unfolding log_write
log_write-full l b full = ground arith

-- In every state that calls of `begin_op`, `log_write` and `end_op` lead to from an unlocked log
-- with no commit under way, whose blocks are distinct and with what its operations may still write
-- at most 30, where each operation is one of `outstanding` and may write at most 10, `log_write` by
-- an operation that has a block left returns exactly if the log has fewer than `size - 1` blocks,
-- and panics otherwise, though it then has fewer than 30. When it returns, the block stands in the
-- log once, at the end if it was not in it before; the other blocks keep their places, the block's
-- buffer is pinned and nothing else changes.
pub Reachable-log_write :
    (s t : System) (i k b : ℕ)
    → IsAdmitted s
    → Reachable s t
    → get_elem? t.budgets i ≡ some (suc k)
    → Enters b t.log (log_write b t.log)
unfolding Enters
Reachable-log_write s t i k b w r at =
    let w' = Reachable-IsAdmitted s t w r in
    let q = sum-set t.budgets i at in
    let lt = lt_of_get_elem? t.budgets i at in
    let room = w'.room in
    let n = w'.counted in
    elim (Bool-cases (ltb (length t.log.blocks + 1) t.log.size)) [
      | inl fits ↦
          let e = log_write-room t.log b w'.unlocked (omega arith) (ground arith) (omega arith) in
          rw e (
            (ground arith),
            record {
              rest = refl;
              blocks = absorb-cases b t.log.blocks;
              once = absorb-Distinct b t.log.blocks w'.distinct;
            },
          )
      | inr full ↦
          let e = log_write-full t.log b (ground arith) in rw e ((ground arith), omega arith)
    ]
