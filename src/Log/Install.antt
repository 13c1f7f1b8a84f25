-- ===== src/Log/Install.antt =====
-- What the loops of `write_log` and `install_trans` of log.c leave on the disk, when power may fail.
use a.Base.{
  lt_of_get_elem?, ℕ, zero, suc, ◌+◌, ◌<◌, ◌≡◌, refl, ap, ◌∙◌, ◌≢◌, ◌⊎◌, inl, inr, Bool, true,
  false, ◌||◌, some, List, [], ◌∷◌, arith, ◌==◌, if◌then◌else◌, ==_iff, Bool-cases, length,
  get_elem?,
}
use a.Log.{Disk, Log, update, copy_block, install_loop}

abbrev pub has : ℕ → List ℕ → Bool
has b [] = false
has b (x ∷ xs) = (b == x) || has b xs

-- A block outside the log, whose header is at `start` and which holds `n` blocks.
abbrev pub Home : ℕ → ℕ → ℕ → Type 0
Home start n b = (b < start) ⊎ (start + n < b)

pub has_of_get : (bs : List ℕ) (i : ℕ) {b : ℕ} → get_elem? bs i ≡ some b → has b bs ≡ true
has_of_get [] i h = cc
has_of_get (x ∷ xs) zero h = ground arith
has_of_get (x ∷ xs) (suc i) h = ground (arith, has_of_get xs i h)

pub power-cases : (n : ℕ) → (n ≡ 0) ⊎ ((m : ℕ) × (n ≡ suc m))
power-cases zero = inl refl
power-cases (suc n) = inr (n, refl)

pub copy_block-off :
    (to from : ℕ) (l : Log)
    → l.power ≡ 0
    → copy_block to from l ≡ record l { view = update l.view to (l.view from) }
unfolding copy_block
copy_block-off to from l e = ground arith

pub copy_block-on :
    (to from m : ℕ) (l : Log)
    → l.power ≡ suc m
    → copy_block to from l ≡ record l {
      view = update l.view to (l.view from);
      power = m;
      disk = record (l.disk) { block = update l.disk.block to (l.view from) };
    }
unfolding copy_block
copy_block-on to from m l e = ground arith

pub ne_of_has : (b c : ℕ) (bs : List ℕ) → has b bs ≡ false → has c bs ≡ true → b ≢ c
ne_of_has b c bs nb hc = λ e. let e' = ap (λ y. has y bs) e in absurd cc

pub update_ne : (f : ℕ → ℕ) (b x a : ℕ) → a ≢ b → update f b x a ≡ f a
update_ne f b x a ne = ground arith

-- A transaction: the log at `start`, the blocks `bs` that it changes, and the contents of all blocks
-- before it and of the changed blocks after it.
module _ (start : ℕ) (bs : List ℕ) (old new : ℕ → ℕ) where
  abbrev pub IsHome : ℕ → Type 0
  IsHome b = Home start (length bs) b

  -- every block with the transaction made
  abbrev pub after : ℕ → ℕ
  after b = if has b bs then new b else old b

  -- The transaction has not happened.
  pub record IsOld (d : Disk) : Type 0 where
    pub head : d.head ≡ []
    pub home : (b : ℕ) → IsHome b → d.block b ≡ old b

  -- It is committed: the log holds it, and only blocks that it changes may have changed.
  pub record IsCommitted (d : Disk) : Type 0 where
    pub head : d.head ≡ bs
    pub slots : (i : ℕ) (b : ℕ) → get_elem? bs i ≡ some b → d.block (start + 1 + i) ≡ new b
    pub home : (b : ℕ) → IsHome b → has b bs ≡ false → d.block b ≡ old b

  -- It has happened, and the log is free again.
  pub record IsNew (d : Disk) : Type 0 where
    pub head : d.head ≡ []
    pub home : (b : ℕ) → IsHome b → d.block b ≡ after b

  -- `install_trans` with the suffix `cs` left, which begins at place `i`.
  pub record Installing (cs : List ℕ) (i : ℕ) (l : Log) : Type 0 where
    pub committed : IsCommitted l.disk
    pub suffix : (j b : ℕ) → get_elem? cs j ≡ some b → get_elem? bs (i + j) ≡ some b
    pub seen : (j b : ℕ) → get_elem? bs j ≡ some b → l.view (start + 1 + j) ≡ new b
    pub done : (l.power ≡ 0) ⊎ ((b : ℕ) → IsHome b → has b cs ≡ false → l.disk.block b ≡ after b)
    pub blocks : l.blocks ≡ bs

  done-step :
      (f : ℕ → ℕ) (c : ℕ) (cs : List ℕ) (b v : ℕ)
      → v ≡ new c
      → has c bs ≡ true
      → (has b (c ∷ cs) ≡ false → f b ≡ after b)
      → has b cs ≡ false
      → update f c v b ≡ after b
  done-step f c cs b v e hc rest nb = elim (Bool-cases (b == c)) [
    | inl t ↦ let q : b ≡ c = (==_iff b c).0 t in rw (t, q, hc) e
    | inr t ↦ rw t (rest (rw t nb))
  ]

  module _ (homes : (i b : ℕ) → get_elem? bs i ≡ some b → IsHome b) where
    -- a home block is no block of the log
    pub home-ne-slot :
        (i b j c : ℕ) → get_elem? bs i ≡ some b → get_elem? bs j ≡ some c → start + 1 + j ≢ b
    home-ne-slot i b j c at at' =
        let h = homes i b at in let l = lt_of_get_elem? bs j at' in ground arith

    Installing-step :
        (c : ℕ) (cs : List ℕ) (i : ℕ) (l : Log)
        → Installing (c ∷ cs) i l
        → Installing cs (i + 1) (copy_block c (start + 1 + i) l)
    Installing-step c cs i l inv =
        let at : get_elem? bs i ≡ some c =
          let z : i + 0 ≡ i = omega arith in rw z at (inv.suffix 0 c refl) in
        let value : l.view (start + 1 + i) ≡ new c = inv.seen i c at in
        let hc : has c bs ≡ true = has_of_get bs i at in
        let suffix' = λ (j b : ℕ) (g : get_elem? cs j ≡ some b).
          let z : i + suc j ≡ i + 1 + j = omega arith in rw z at (inv.suffix (suc j) b g) in
        let seen' = λ (j b : ℕ) (g : get_elem? bs j ≡ some b).
          update_ne l.view c (l.view (start + 1 + i)) (start + 1 + j) (home-ne-slot i c j b at g)
          ∙ inv.seen j b g in
        elim (power-cases l.power) [
          | inl off ↦ rw (copy_block-off c (start + 1 + i) l off) (record {
            committed = inv.committed;
            suffix = suffix';
            seen = seen';
            done = inl off;
            blocks = inv.blocks;
          })
          | inr (m, on) ↦ rw (copy_block-on c (start + 1 + i) m l on) (record {
            committed = record {
              head = inv.committed.head;
              slots = λ j b g.
                  update_ne l.disk.block c (l.view (start + 1 + i)) (start + 1 + j)
                    (home-ne-slot i c j b at g)
                  ∙ inv.committed.slots j b g;
              home = λ b h nb.
                  update_ne l.disk.block c (l.view (start + 1 + i)) b (ne_of_has b c bs nb hc)
                  ∙ inv.committed.home b h nb;
            };
            suffix = suffix';
            seen = seen';
            done = elim inv.done [
              | inl z ↦ absurd cc
              | inr f ↦ inr (λ b h nb.
                  done-step (l.disk.block) c cs b (l.view (start + 1 + i)) value hc (f b h) nb)
            ];
            blocks = inv.blocks;
          })
        ]

    pub Installing-loop :
        (cs : List ℕ) (i : ℕ) (l : Log)
        → Installing cs i l
        → (j : ℕ) × Installing [] j (install_loop (start + 1 + i) cs l)
    unfolding install_loop
    Installing-loop [] i l inv = (i, inv)
    Installing-loop (c ∷ cs) i l inv =
        let z : start + 1 + i + 1 ≡ start + 1 + (i + 1) = omega arith in
        rw z (
          Installing-loop cs (i + 1) (copy_block c (start + 1 + i) l)
            (Installing-step c cs i l inv))
