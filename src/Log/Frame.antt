-- ===== src/Log/Frame.antt =====
-- What `commit` leaves alone and clears, and how `log_write` enters a block, in log.c.
use a.Base.{
  ℕ, ◌+◌, ◌≤◌, ◌≡◌, refl, ◌∙◌, inl, inr, Bool, false, ◌||◌, List, [], ◌∷◌, arith, ltb, ◌==◌,
  Bool-cases, length,
}
use a.Log.{
  Log, copy_block, write_loop, write_log, write_head, install_loop, install_trans, commit, absorb,
}
use a.Log.Install.{has, power-cases, copy_block-off, copy_block-on}

-- The fields that the disk writes leave alone.
abbrev pub frame : Log → Bool × (Bool × (ℕ × ℕ))
frame l = (l.lock, (l.committing, (l.outstanding, l.size)))

copy_block-frame : (to from : ℕ) (l : Log) → frame (copy_block to from l) ≡ frame l
copy_block-frame to from l = elim (power-cases l.power) [
  | inl off ↦ rw (copy_block-off to from l off) refl
  | inr (m, on) ↦ rw (copy_block-on to from m l on) refl
]

write_loop-frame : (cs : List ℕ) (s : ℕ) (l : Log) → frame (write_loop s cs l) ≡ frame l
unfolding write_loop
write_loop-frame [] s l = refl
write_loop-frame (c ∷ cs) s l =
    write_loop-frame cs (s + 1) (copy_block s c l) ∙ copy_block-frame s c l

install_loop-frame : (cs : List ℕ) (s : ℕ) (l : Log) → frame (install_loop s cs l) ≡ frame l
unfolding install_loop
install_loop-frame [] s l = refl
install_loop-frame (c ∷ cs) s l =
    install_loop-frame cs (s + 1) (copy_block c s l) ∙ copy_block-frame c s l

write_head-frame : (l : Log) → frame (write_head l) ≡ frame l
unfolding write_head
write_head-frame l = elim (power-cases l.power) [ inl off ↦ rw off refl | inr (m, on) ↦ rw on refl ]

write_head-blocks : (l : Log) → (write_head l).blocks ≡ l.blocks
unfolding write_head
write_head-blocks l = ground arith

pub commit-frame : (l : Log) → frame (commit l) ≡ frame l
unfolding commit write_log install_trans
commit-frame l = elim (Bool-cases (ltb 0 (length l.blocks))) [
  | inl t ↦
      let w = write_log l in
      let x = write_head w in
      rw t (
        write_head-frame (record (install_trans x) { blocks = []; dirty = [] })
        ∙ install_loop-frame x.blocks (x.start + 1) x
        ∙ write_head-frame w
        ∙ write_loop-frame l.blocks (l.start + 1) l)
  | inr f ↦ rw f refl
]

pub commit-blocks : (l : Log) → length (commit l).blocks ≡ 0
unfolding commit
commit-blocks l = elim (Bool-cases (ltb 0 (length l.blocks))) [
  | inl t ↦
      let e =
        write_head-blocks
          (record (install_trans (write_head (write_log l))) { blocks = []; dirty = [] }) in
      rw (t, e) refl
  | inr f ↦ rw f (ground arith)
]

pub absorb-length : (b : ℕ) (bs : List ℕ) → length (absorb b bs) ≤ length bs + 1
unfolding absorb
absorb-length b [] = omega arith
absorb-length b (x ∷ xs) = let h = absorb-length b xs in ground arith

abbrev pub Distinct : List ℕ → Type 0
Distinct [] = Unit
Distinct (x ∷ xs) = (has x xs ≡ false) × Distinct xs

pub has-absorb : (c b : ℕ) (bs : List ℕ) → has c (absorb b bs) ≡ ((c == b) || has c bs)
unfolding absorb
has-absorb c b [] = refl
has-absorb c b (x ∷ xs) = let h = has-absorb c b xs in ground arith

pub absorb-Distinct : (b : ℕ) (bs : List ℕ) → Distinct bs → Distinct (absorb b bs)
unfolding absorb
absorb-Distinct b [] d = (refl, tt)
absorb-Distinct b (x ∷ xs) d =
    let h = absorb-Distinct b xs d.1 in let e = has-absorb x b xs in ground arith
