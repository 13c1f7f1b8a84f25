-- ===== src/Log/Writes.antt =====
-- The disk writes of log.c: what they spend of the power and leave alone.
use a.Base.{ℕ, zero, suc, ◌+◌, ◌-◌, ◌≡◌, refl, ap, ◌∙◌, List, [], ◌∷◌, arith, length}
use a.Log.{
  Log, copy_block, write_loop, write_head, install_loop, install_trans, read_head, recover_from_log,
  reboot,
}
use a.Log.Install.{copy_block-off}

pub copy_block-power : (to from : ℕ) (l : Log) → (copy_block to from l).power ≡ l.power - 1
unfolding copy_block
copy_block-power to from l = ground arith

pub copy_block-start : (to from : ℕ) (l : Log) → (copy_block to from l).start ≡ l.start
unfolding copy_block
copy_block-start to from l = ground arith

pub install_loop-power :
    (cs : List ℕ) (s : ℕ) (l : Log) → (install_loop s cs l).power ≡ l.power - length cs
unfolding install_loop
install_loop-power [] s l = omega arith
install_loop-power (c ∷ cs) s l =
    let h = install_loop-power cs (s + 1) (copy_block c s l) in
    let p = copy_block-power c s l in omega arith

pub write_loop-power :
    (cs : List ℕ) (s : ℕ) (l : Log) → (write_loop s cs l).power ≡ l.power - length cs
unfolding write_loop
write_loop-power [] s l = omega arith
write_loop-power (c ∷ cs) s l =
    let h = write_loop-power cs (s + 1) (copy_block s c l) in
    let p = copy_block-power s c l in omega arith

pub write_loop-start : (cs : List ℕ) (s : ℕ) (l : Log) → (write_loop s cs l).start ≡ l.start
unfolding write_loop
write_loop-start [] s l = refl
write_loop-start (c ∷ cs) s l =
    write_loop-start cs (s + 1) (copy_block s c l) ∙ copy_block-start s c l

pub write_head-off : (l : Log) → l.power ≡ 0 → write_head l ≡ l
unfolding write_head
write_head-off l e = ground arith

pub write_head-on :
    (l : Log) (m : ℕ)
    → l.power ≡ suc m
    → write_head l ≡ record l { power = m; disk = record (l.disk) { head = l.blocks } }
unfolding write_head
write_head-on l m e = ground arith

pub install_loop-off :
    (cs : List ℕ) (s : ℕ) (l : Log) → l.power ≡ 0 → (install_loop s cs l).disk ≡ l.disk
unfolding install_loop
install_loop-off [] s l e = refl
install_loop-off (c ∷ cs) s l e =
    let p = copy_block-power c s l in
    install_loop-off cs (s + 1) (copy_block c s l) (omega arith)
    ∙ ap (λ l. l.disk) (copy_block-off c s l e)

pub install_loop-start : (cs : List ℕ) (s : ℕ) (l : Log) → (install_loop s cs l).start ≡ l.start
unfolding install_loop
install_loop-start [] s l = refl
install_loop-start (c ∷ cs) s l =
    install_loop-start cs (s + 1) (copy_block c s l) ∙ copy_block-start c s l

pub write_head-start : (l : Log) → (write_head l).start ≡ l.start
unfolding write_head
write_head-start l = ground arith

pub recover_from_log-start : (l : Log) → (recover_from_log l).start ≡ l.start
unfolding recover_from_log read_head install_trans
recover_from_log-start l =
    write_head-start (record (install_trans (read_head l)) { blocks = [] })
    ∙ install_loop-start l.disk.head (l.start + 1) (read_head l)

-- A recovery with a clear header changes no block.
pub recover_from_log-clear :
    (l : Log) (p : ℕ)
    → l.disk.head ≡ []
    → ((recover_from_log (reboot p l)).disk.head ≡ [])
      × ((recover_from_log (reboot p l)).disk.block ≡ l.disk.block)
unfolding recover_from_log read_head install_trans install_loop write_head
recover_from_log-clear l zero e = rw e (refl, refl)
recover_from_log-clear l (suc p) e = rw e (refl, refl)

pub write_head-power : (l : Log) → (write_head l).power ≡ l.power - 1
unfolding write_head
write_head-power l = ground arith

pub install_trans-off :
    (l : Log) (ds : List ℕ)
    → l.power ≡ 0
    → (write_head (record (install_trans l) { blocks = []; dirty = ds })).disk ≡ l.disk
unfolding install_trans
install_trans-off l ds e =
    let p = install_loop-power l.blocks (l.start + 1) l in
    ap (λ l. l.disk)
      (write_head-off (record (install_trans l) { blocks = []; dirty = ds }) (omega arith))
    ∙ install_loop-off l.blocks (l.start + 1) l e
