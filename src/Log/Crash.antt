-- ===== src/Log/Crash.antt =====
-- A commit of log.c with a loss of power at any disk write, and the recoveries after it.
use a.Base.{
  ℕ, ◌+◌, ◌-◌, ◌*◌, ◌≤◌, ◌<◌, ◌≡◌, refl, sym, ap, ◌∙◌, ◌⊎◌, inl, inr, false, some, List, [], ◌∷◌,
  arith, ltb, Bool-cases, length, get_elem?, lt_of_get_elem?, subst,
}
use a.Log.{Log, write_log, write_head, install_trans, recover_from_log, commit, reboot}
use a.Log.Install.{Home, has, IsHome, IsOld, IsNew, Installing, power-cases}
use a.Log.Writes.{
  write_loop-power, write_loop-start, write_head-off, write_head-on, install_loop-start,
  write_head-start, write_head-power, install_trans-off,
}
use a.Log.Recovery.{
  recoveries, IsRecoverable, before, logged, finished, write_log-eq, install_trans-finish,
  recover_from_log-cases, recoveries-IsRecoverable,
}
use a.Log.Record.{Writing, Writing-loop}

has-empty : (b : ℕ) (bs : List ℕ) → ltb 0 (length bs) ≡ false → has b bs ≡ false
has-empty b [] e = refl
has-empty b (x ∷ bs) e = absurd (ground arith)

module _ (start : ℕ) (bs : List ℕ) (old new : ℕ → ℕ) where
  module _ (homes : (i b : ℕ) → get_elem? bs i ≡ some b → IsHome start bs old new b) where
    -- The log blocks are written, and the header is still clear.
    write_head-commit :
        (l : Log)
        → Writing start bs old new [] (length bs) l
        → IsOld start bs old new l.disk
          × ((l.power ≡ 0) ⊎ Installing start bs old new bs 0 (write_head l))
    write_head-commit l w = (
      record { head = w.head; home = w.home },
      elim (power-cases l.power) [
        | inl off ↦ inl off
        | inr (m, on) ↦
            let e = write_head-on l m on in
            elim w.slots [
              | inl z ↦ absurd cc
              | inr f ↦ inr (
                  rw e (record {
                    committed = record {
                      head = w.blocks;
                      slots = λ i b g. f i b (lt_of_get_elem? bs i g) g;
                      home = λ b h nb. w.home b h;
                    };
                    suffix = λ j b g. let z : 0 + j ≡ j = omega arith in rw z g;
                    seen = λ j b g. w.seen j b (lt_of_get_elem? bs j g) g;
                    done = inr (λ b h nb. rw nb (w.home b h));
                    blocks = w.blocks;
                  }))
            ]
      ],
    )

    commit-steps :
        (l : Log)
        → l.start ≡ start
        → Writing start bs old new bs 0 l
        → ((IsRecoverable start bs old new
              (write_head (record (install_trans (write_head (write_log l))) {
                blocks = [];
                dirty = [];
              })).disk
            × (l.power ≤ 2 * length bs + 1)))
          ⊎ IsNew start bs old new
              (write_head (record (install_trans (write_head (write_log l))) {
                blocks = [];
                dirty = [];
              })).disk
    commit-steps l st inv =
        let e = write_log-eq start bs old new homes l st inv.blocks in
        let w : Writing start bs old new [] (length bs) (write_log l) =
          subst (λ y. Writing start bs old new [] (length bs) y) (sym e)
            (Writing-loop start bs old new homes bs 0 l inv) in
        let p : (write_log l).power ≡ l.power - length bs =
          ap (λ y. y.power) e ∙ write_loop-power bs (start + 1 + 0) l in
        let s : (write_log l).start ≡ start =
          ap (λ y. y.start) e ∙ write_loop-start bs (start + 1 + 0) l ∙ st in
        let r = write_head-commit (write_log l) w in
        elim r.1 [
          | inl off ↦
              let same = install_trans-off (write_log l) [] off in
              inl (before (rw (write_head-off (write_log l) off, same) r.0), omega arith)
          | inr inst ↦
              let q = write_head-power (write_log l) in
              elim (install_trans-finish start bs old new homes (write_head (write_log l)) []
                (write_head-start (write_log l) ∙ s) inst) [
                  | inl (c, few) ↦ inl (logged c, omega arith)
                  | inr n ↦ inr n
                ]
        ]

commit-start : (l : Log) → (commit l).start ≡ l.start
unfolding commit write_log install_trans
commit-start l = elim (Bool-cases (ltb 0 (length l.blocks))) [
  | inl t ↦
      let w = write_log l in
      let x = write_head w in
      rw t (
        write_head-start (record (install_trans x) { blocks = []; dirty = [] })
        ∙ install_loop-start x.blocks (x.start + 1) x
        ∙ write_head-start w
        ∙ write_loop-start l.blocks (l.start + 1) l)
  | inr f ↦ rw f refl
]

module _ (l : Log) (clear : l.disk.head ≡ [])
    (homes : (i b : ℕ) → get_elem? l.blocks i ≡ some b → Home l.start (length l.blocks) b) where
  commit-cases :
      ((IsRecoverable l.start l.blocks l.disk.block l.view (commit l).disk
        × (l.power ≤ 2 * length l.blocks + 1)))
      ⊎ IsNew l.start l.blocks l.disk.block l.view (commit l).disk
  unfolding commit
  commit-cases = elim (Bool-cases (ltb 0 (length l.blocks))) [
    | inl t ↦ rw t (
        commit-steps l.start l.blocks l.disk.block l.view homes l refl (record {
          head = clear;
          home = λ b h. refl;
          cached = λ j b g. refl;
          seen = λ j b lt g. absurd (omega arith);
          slots = inr (λ j b lt g. absurd (omega arith));
          suffix = λ j b g. let z : 0 + j ≡ j = omega arith in rw z g;
          blocks = refl;
          count = omega arith;
        }))
    | inr f ↦
        rw f
          (inr (record { head = clear; home = λ b h. let n = has-empty b l.blocks f in rw n refl }))
  ]

  -- Take a log with a clear header on the disk whose blocks to commit lie outside the log area. Let
  -- the power fail at any disk write of `commit`, or at none, then in any number of recoveries, and
  -- let one recovery run to its end. Then the header is clear, and either every block outside the
  -- log area is as before the commit, or every block that the transaction changes has the cached
  -- contents and every other one is as before.
  pub commit-atomic :
      (ps : List ℕ) (p : ℕ)
      → length l.blocks < p
      → IsOld l.start l.blocks l.disk.block l.view
          (recover_from_log (reboot p (recoveries ps (commit l)))).disk
        ⊎ IsNew l.start l.blocks l.disk.block l.view
            (recover_from_log (reboot p (recoveries ps (commit l)))).disk
  commit-atomic ps p enough =
      let r : IsRecoverable l.start l.blocks l.disk.block l.view (commit l).disk =
        elim commit-cases [ inl (r, few) ↦ r | inr n ↦ finished n ] in
      let s =
        recoveries-IsRecoverable l.start l.blocks l.disk.block l.view homes ps (commit l)
          (commit-start l) r in
      elim (recover_from_log-cases l.start l.blocks l.disk.block l.view homes
        (recoveries ps (commit l)) p s.0 s.1) [
          | inl o ↦ inl o
          | inr (inl (c, few)) ↦ absurd (omega arith)
          | inr (inr n) ↦ inr n
        ]

  -- With the same log and power for all its disk writes, `commit` leaves the header clear, every
  -- block of the transaction with its cached contents, and every other block outside the log area
  -- as before.
  pub commit-IsNew :
      2 * length l.blocks + 1 < l.power → IsNew l.start l.blocks l.disk.block l.view (commit l).disk
  commit-IsNew enough = elim commit-cases [ inl (r, few) ↦ absurd (omega arith) | inr n ↦ n ]
