-- ===== src/Log/Record.antt =====
-- What the loop of `write_log` of log.c leaves on the disk, when power may fail.
use a.Base.{
  ℕ, suc, ◌+◌, ◌<◌, ◌≡◌, refl, sym, ap, ◌∙◌, ◌⊎◌, inl, inr, some, List, [], ◌∷◌, arith, ◌==◌,
  ==_iff, Bool-cases, length, get_elem?, lt_of_get_elem?, some-injective,
}
use a.Log.{Log, update, copy_block, write_loop}
use a.Log.Install.{IsHome, home-ne-slot, power-cases, copy_block-off, copy_block-on, update_ne}

module _ (start : ℕ) (bs : List ℕ) (old new : ℕ → ℕ) where
  -- `write_log` with the suffix `cs` left, which begins at place `i`.
  pub record Writing (cs : List ℕ) (i : ℕ) (l : Log) : Type 0 where
    pub head : l.disk.head ≡ []
    pub home : (b : ℕ) → IsHome start bs old new b → l.disk.block b ≡ old b
    pub cached : (j b : ℕ) → get_elem? bs j ≡ some b → l.view b ≡ new b
    pub seen : (j b : ℕ) → j < i → get_elem? bs j ≡ some b → l.view (start + 1 + j) ≡ new b
    pub slots :
        (l.power ≡ 0)
        ⊎ ((j b : ℕ) → j < i → get_elem? bs j ≡ some b → l.disk.block (start + 1 + j) ≡ new b)
    pub suffix : (j b : ℕ) → get_elem? cs j ≡ some b → get_elem? bs (i + j) ≡ some b
    pub blocks : l.blocks ≡ bs
    pub count : i + length cs ≡ length bs

  slots-step :
      (f : ℕ → ℕ) (i c v : ℕ)
      → v ≡ new c
      → get_elem? bs i ≡ some c
      → ((j b : ℕ) → j < i → get_elem? bs j ≡ some b → f (start + 1 + j) ≡ new b)
      → (j b : ℕ) → j < i + 1
      → get_elem? bs j ≡ some b
      → update f (start + 1 + i) v (start + 1 + j) ≡ new b
  slots-step f i c v e at rest j b lt g = elim (Bool-cases (j == i)) [
    | inl t ↦
        let q : j ≡ i = (==_iff j i).0 t in
        let g' : get_elem? bs i ≡ some b = rw (sym q) g in
        let bc : c ≡ b = some-injective _ _ (sym at ∙ g') in
        let s : update f (start + 1 + i) v (start + 1 + j) ≡ v = ground arith in s ∙ e ∙ ap new bc
    | inr t ↦
        update_ne f (start + 1 + i) v (start + 1 + j) (ground arith) ∙ rest j b (ground arith) g
  ]

  module _ (homes : (i b : ℕ) → get_elem? bs i ≡ some b → IsHome start bs old new b) where
    Writing-step :
        (c : ℕ) (cs : List ℕ) (i : ℕ) (l : Log)
        → Writing (c ∷ cs) i l
        → Writing cs (i + 1) (copy_block (start + 1 + i) c l)
    Writing-step c cs i l inv =
        let at : get_elem? bs i ≡ some c =
          let z : i + 0 ≡ i = omega arith in rw z at (inv.suffix 0 c refl) in
        let value : l.view c ≡ new c = inv.cached i c at in
        let lt = lt_of_get_elem? bs i at in
        let suffix' = λ (j b : ℕ) (g : get_elem? cs j ≡ some b).
          let z : i + suc j ≡ i + 1 + j = omega arith in rw z at (inv.suffix (suc j) b g) in
        let cached' = λ (j b : ℕ) (g : get_elem? bs j ≡ some b).
          update_ne l.view (start + 1 + i) (l.view c) b
            (λ e. home-ne-slot start bs old new homes j b i c g at (sym e))
          ∙ inv.cached j b g in
        let seen' = slots-step l.view i c (l.view c) value at inv.seen in
        elim (power-cases l.power) [
          | inl off ↦ rw (copy_block-off (start + 1 + i) c l off) (record {
            head = inv.head;
            home = inv.home;
            cached = cached';
            seen = seen';
            slots = inl off;
            suffix = suffix';
            blocks = inv.blocks;
            count = omega (arith, inv.count);
          })
          | inr (m, on) ↦ rw (copy_block-on (start + 1 + i) c m l on) (record {
            head = inv.head;
            home = λ b h.
                update_ne l.disk.block (start + 1 + i) (l.view c) b (ground arith) ∙ inv.home b h;
            cached = cached';
            seen = seen';
            slots = elim inv.slots [
              | inl z ↦ absurd cc
              | inr f ↦ inr (slots-step (l.disk.block) i c (l.view c) value at f)
            ];
            suffix = suffix';
            blocks = inv.blocks;
            count = omega (arith, inv.count);
          })
        ]

    pub Writing-loop :
        (cs : List ℕ) (i : ℕ) (l : Log)
        → Writing cs i l
        → Writing [] (length bs) (write_loop (start + 1 + i) cs l)
    unfolding write_loop
    Writing-loop [] i l inv = let z : i ≡ length bs = omega (arith, inv.count) in rw z at inv
    Writing-loop (c ∷ cs) i l inv =
        let z : start + 1 + i + 1 ≡ start + 1 + (i + 1) = omega arith in
        rw z (Writing-loop cs (i + 1) (copy_block (start + 1 + i) c l) (Writing-step c cs i l inv))
