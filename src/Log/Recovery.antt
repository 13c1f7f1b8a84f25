-- ===== src/Log/Recovery.antt =====
-- `install_trans` to its end, and `recover_from_log`, with power that may fail, in log.c.
use a.Base.{
  ℕ, ◌+◌, ◌-◌, ◌≤◌, ◌≡◌, refl, sym, ap, ap₂, ◌∙◌, ◌⊎◌, inl, inr, some, List, [], ◌∷◌, arith, length,
  get_elem?, subst,
}
use a.Log.{
  Disk, Log, write_loop, write_log, write_head, install_loop, install_trans, read_head,
  recover_from_log, reboot,
}
use a.Log.Install.{IsHome, IsOld, IsCommitted, IsNew, Installing, Installing-loop, power-cases}
use a.Log.Writes.{
  install_loop-power, write_head-off, write_head-on, recover_from_log-start, recover_from_log-clear,
}

-- Successive starts of the machine, each of which recovers until its power fails.
unfoldable pub recoveries : List ℕ → Log → Log
unfolding recover_from_log
recoveries [] l = l
recoveries (p ∷ ps) l = recoveries ps (recover_from_log (reboot p l))

module _ (start : ℕ) (bs : List ℕ) (old new : ℕ → ℕ) where
  -- The disk between the old and the new contents, in a state that recovery understands.
  pub data IsRecoverable (d : Disk) : Type 0 where
    before : IsOld start bs old new d → IsRecoverable d
    logged : IsCommitted start bs old new d → IsRecoverable d
    finished : IsNew start bs old new d → IsRecoverable d

  module _ (homes : (i b : ℕ) → get_elem? bs i ≡ some b → IsHome start bs old new b) where
    pub install_trans-eq :
        (l : Log)
        → l.start ≡ start
        → l.blocks ≡ bs
        → install_trans l ≡ install_loop (start + 1 + 0) bs l
    unfolding install_trans
    install_trans-eq l st e = ap₂ (λ s c. install_loop s c l) (omega arith) e

    pub write_log-eq :
        (l : Log) → l.start ≡ start → l.blocks ≡ bs → write_log l ≡ write_loop (start + 1 + 0) bs l
    unfolding write_log
    write_log-eq l st e = ap₂ (λ s c. write_loop s c l) (omega arith) e

    -- The last write of a commit and of a recovery, with the blocks installed.
    pub write_head-finish :
        (l : Log) (j : ℕ) (ds : List ℕ)
        → Installing start bs old new [] j l
        → (IsCommitted start bs old new (write_head (record l { blocks = []; dirty = ds })).disk
            × (l.power ≡ 0))
          ⊎ IsNew start bs old new (write_head (record l { blocks = []; dirty = ds })).disk
    write_head-finish l j ds inv = elim (power-cases l.power) [
      | inl off ↦
          let e = write_head-off (record l { blocks = []; dirty = ds }) off in
          inl (rw e inv.committed, off)
      | inr (m, on) ↦
          let e = write_head-on (record l { blocks = []; dirty = ds }) m on in
          elim inv.done [
            | inl z ↦ absurd cc
            | inr f ↦ inr (rw e (record { head = refl; home = λ b h. f b h refl }))
          ]
    ]

    -- `install_trans` and the clearing of the header, from a committed transaction on.
    pub install_trans-finish :
        (l : Log) (ds : List ℕ)
        → l.start ≡ start
        → Installing start bs old new bs 0 l
        → (IsCommitted start bs old new
              (write_head (record (install_trans l) { blocks = []; dirty = ds })).disk
            × (l.power ≤ length bs))
          ⊎ IsNew start bs old new
              (write_head (record (install_trans l) { blocks = []; dirty = ds })).disk
    install_trans-finish l ds st inv =
        let r = Installing-loop start bs old new homes bs 0 l inv in
        let e = install_trans-eq l st inv.blocks in
        let p = install_loop-power bs (start + 1 + 0) l in
        let r' : Installing start bs old new [] r.0 (install_trans l) =
          subst (λ y. Installing start bs old new [] r.0 y) (sym e) r.1 in
        let q : (install_trans l).power ≡ l.power - length bs = ap (λ y. y.power) e ∙ p in
        elim (write_head-finish (install_trans l) r.0 ds r') [
          | inl (c, off) ↦ inl (c, omega arith)
          | inr n ↦ inr n
        ]

    pub recover_from_log-logged :
        (l : Log) (p : ℕ)
        → l.start ≡ start
        → IsCommitted start bs old new l.disk
        → (IsCommitted start bs old new (recover_from_log (reboot p l)).disk × (p ≤ length bs))
          ⊎ IsNew start bs old new (recover_from_log (reboot p l)).disk
    unfolding recover_from_log read_head
    recover_from_log-logged l p st c =
        install_trans-finish (read_head (reboot p l)) (install_trans (read_head (reboot p l))).dirty
          st
          (record {
            committed = c;
            suffix = λ j b g. let z : 0 + j ≡ j = omega arith in rw z g;
            seen = c.slots;
            done = inr (λ b h nb. rw nb (c.home b h nb));
            blocks = c.head;
          })

    pub recover_from_log-cases :
        (l : Log) (p : ℕ)
        → l.start ≡ start
        → IsRecoverable l.disk
        → (IsOld start bs old new (recover_from_log (reboot p l)).disk)
          ⊎ ((IsCommitted start bs old new (recover_from_log (reboot p l)).disk × (p ≤ length bs))
              ⊎ IsNew start bs old new (recover_from_log (reboot p l)).disk)
    recover_from_log-cases l p st (before o) =
        let r = recover_from_log-clear l p o.head in
        inl (record { head = r.0; home = λ b h. ap (λ f. f b) r.1 ∙ o.home b h })
    recover_from_log-cases l p st (logged c) = inr (recover_from_log-logged l p st c)
    recover_from_log-cases l p st (finished n) =
        let r = recover_from_log-clear l p n.head in
        inr (inr (record { head = r.0; home = λ b h. ap (λ f. f b) r.1 ∙ n.home b h }))

    pub recoveries-IsRecoverable :
        (ps : List ℕ) (l : Log)
        → l.start ≡ start
        → IsRecoverable l.disk
        → ((recoveries ps l).start ≡ start) × IsRecoverable (recoveries ps l).disk
    unfolding recoveries
    recoveries-IsRecoverable [] l st r = (st, r)
    recoveries-IsRecoverable (p ∷ ps) l st r =
        recoveries-IsRecoverable ps (recover_from_log (reboot p l))
          (recover_from_log-start (reboot p l) ∙ st)
          (elim (recover_from_log-cases l p st r) [
            | inl o ↦ before o
            | inr (inl c) ↦ logged c.0
            | inr (inr n) ↦ finished n
          ])
