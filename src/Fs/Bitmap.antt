-- ===== src/Fs/Bitmap.antt =====
-- The block bitmap of fs.c: what balloc and bfree do to the set of used blocks.
use a.Base.{
  ℕ, zero, suc, ◌+◌, ◌-◌, ◌*◌, ◌/◌, ◌%◌, ◌^◌, ◌≤◌, ◌<◌, ◌≡◌, refl, sym, ap, ap₂, ◌∙◌, ◌≢◌, ◌⊎◌, inl,
  inr, true, false, ◌&&◌, none, some, ◌∷◌, arith, ltb, ◌==◌, if◌then◌else◌, ==_iff, Bool-cases,
  Option-cases, Outcome, ok, panic, subst,
}
use a.Fs.Bits.{bit-set, bit-clear}
use a.Fs.{
  Superblock, Fs, poke, log_write, bblock, readsb, bzero, bit, bpb, bit_loop, take_block,
  balloc_loop, balloc, bfree,
}

-- The bit of block `x` in the bitmap.
abbrev pub used : Fs → ℕ → ℕ
used fs x = bit (fs.cell (bblock x fs.sb) (x % bpb / 8)) (x % bpb % 8)

-- The bitmap's cells are bytes, and its own blocks are used.
pub record IsBitmap (fs : Fs) : Type 0 where
  pub byte : (x : ℕ) → x < fs.sb.size → fs.cell (bblock x fs.sb) (x % bpb / 8) < 256
  pub own :
      (x : ℕ) → x < fs.sb.size → (bblock x fs.sb < fs.sb.size) × (used fs (bblock x fs.sb) ≢ 0)

bit_loop-some :
    (fs : Fs) (b n bi x : ℕ)
    → bit_loop fs b n bi ≡ some x
    → (bi ≤ x)
      × (x < bi + n)
      × (b + x < fs.sb.size)
      × (bit (fs.cell (bblock b fs.sb) (x / 8)) (x % 8) ≡ 0)
unfolding bit_loop
bit_loop-some fs b zero bi x e = cc
bit_loop-some fs b (suc n) bi x e = elim (Bool-cases (ltb (b + bi) fs.sb.size)) [
  | inr t ↦ absurd (ground arith)
  | inl t ↦ elim (Bool-cases (bit (fs.cell (bblock b fs.sb) (bi / 8)) (bi % 8) == 0)) [
    | inl z ↦
        let q : bi ≡ x = ground arith in
        rw (sym q) (ground arith, ground arith, ground arith, (==_iff _ _).0 z)
    | inr z ↦
        let (p, q, r, w) = bit_loop-some fs b n (bi + 1) x (ground arith) in
        (omega arith, omega arith, r, w)
  ]
]

bit_loop-none :
    (fs : Fs) (b n bi : ℕ)
    → bit_loop fs b n bi ≡ none
    → (x : ℕ) → bi ≤ x
    → x < bi + n
    → b + x < fs.sb.size
    → bit (fs.cell (bblock b fs.sb) (x / 8)) (x % 8) ≢ 0
unfolding bit_loop
bit_loop-none fs b zero bi e x lo hi lt = absurd (omega arith)
bit_loop-none fs b (suc n) bi e x lo hi lt = elim (Bool-cases (ltb (b + bi) fs.sb.size)) [
  | inr t ↦ absurd (ground arith)
  | inl t ↦ elim (Bool-cases (bit (fs.cell (bblock b fs.sb) (bi / 8)) (bi % 8) == 0)) [
    | inl z ↦ absurd (ground arith)
    | inr z ↦ elim (Bool-cases (x == bi)) [
      | inl s ↦ let q : x ≡ bi = (==_iff x bi).0 s in rw q (ground arith)
      | inr s ↦ bit_loop-none fs b n (bi + 1) (ground arith) x (ground arith) (omega arith) lt
    ]
  ]
]

-- What a change of the byte of block `x` does to the bit of block `y`.
module _ (x y : ℕ) (sb : Superblock) where
  same_place :
      (bblock y sb == bblock x sb && y % bpb / 8 == x % bpb / 8) ≡ true
      → ((y == x) ≡ (y % bpb % 8 == x % bpb % 8))
        × (bblock y sb ≡ bblock x sb)
        × (y % bpb / 8 ≡ x % bpb / 8)
  same_place e = (ground arith, ground arith, ground arith)

  other_place :
      (bblock y sb == bblock x sb && y % bpb / 8 == x % bpb / 8) ≡ false → (y == x) ≡ false
  other_place e = ground arith

module _ (fs : Fs) (v : IsBitmap fs) (x : ℕ) (lt : x < fs.sb.size) (free : used fs x ≡ 0) where
  no_bitmap : (y : ℕ) → y < fs.sb.size → (bblock y fs.sb == x) ≡ false
  no_bitmap y l = elim (Bool-cases (bblock y fs.sb == x)) [
    | inr e ↦ e
    | inl e ↦ absurd ((v.own y l).1 (subst (λ z. used fs z ≡ 0) (sym ((==_iff _ _).0 e)) free))
  ]

  -- `take_block` in terms of the block taken.
  taken : Fs
  taken = bzero x (
      log_write (bblock x fs.sb) (
        poke (bblock x fs.sb) (x % bpb / 8)
          (fs.cell (bblock x fs.sb) (x % bpb / 8) + 2 ^ (x % bpb % 8)) fs))

  taken-used : (y : ℕ) → y < fs.sb.size → used taken y ≡ (if y == x then 1 else used fs y)
  unfolding taken bzero
  taken-used y l =
      let nb = no_bitmap y l in
      elim (Bool-cases (bblock y fs.sb == bblock x fs.sb && y % bpb / 8 == x % bpb / 8)) [
        | inl t ↦
            let (e, p, q) = same_place x y fs.sb t in
            let s =
              bit-set (fs.cell (bblock x fs.sb) (x % bpb / 8)) (x % bpb % 8) (y % bpb % 8)
                (v.byte x lt) (omega arith) (omega arith) free in
            rw (nb, t, s.0, e, p, q) refl
        | inr t ↦ rw (nb, t, other_place x y fs.sb t) refl
      ]

  taken-IsBitmap : IsBitmap taken
  unfolding taken bzero
  taken-IsBitmap = record {
    byte = λ y l.
        let nb = no_bitmap y l in
        elim (Bool-cases (bblock y fs.sb == bblock x fs.sb && y % bpb / 8 == x % bpb / 8)) [
          | inl t ↦
              let s =
                bit-set (fs.cell (bblock x fs.sb) (x % bpb / 8)) (x % bpb % 8) (y % bpb % 8)
                  (v.byte x lt) (omega arith) (omega arith) free in
              rw (nb, t) s.1
          | inr t ↦ rw (nb, t) (v.byte y l)
        ];
    own = λ y l.
        let (small, busy) = v.own y l in
        let q = ap (λ t. if t then 1 else used fs (bblock y fs.sb)) (no_bitmap y l) in
        (small, (λ e. busy (sym q ∙ sym (taken-used (bblock y fs.sb) small) ∙ e)));
  }

-- The allocation of block `x`: it was free and is used now and zero; no other block's bit and no cell
-- outside the block and its part of the bitmap has changed.
pub record IsAllocated (fs : Fs) (x : ℕ) (fs' : Fs) : Type 0 where
  pub inside : x < fs.sb.size
  pub free : used fs x ≡ 0
  pub bits : (y : ℕ) → y < fs.sb.size → used fs' y ≡ (if y == x then 1 else used fs y)
  pub zero : (off : ℕ) → fs'.cell x off ≡ 0
  pub others : (b off : ℕ) → b ≢ x → b ≢ bblock x fs.sb → fs'.cell b off ≡ fs.cell b off
  pub bitmap : IsBitmap fs'
  pub logged : fs'.logged ≡ x ∷ bblock x fs.sb ∷ fs.logged
  pub superblock : fs'.sb ≡ fs.sb
  pub inodes : fs'.inode ≡ fs.inode

taken-IsAllocated :
    (fs : Fs) (v : IsBitmap fs) (x : ℕ) (lt : x < fs.sb.size) (free : used fs x ≡ 0)
    → IsAllocated fs x (taken fs v x lt free)
unfolding taken bzero
taken-IsAllocated fs v x lt free = record {
  inside = lt;
  free = free;
  bits = taken-used fs v x lt free;
  zero = λ off. ground arith;
  others = λ b off ne ne'. ground arith;
  bitmap = taken-IsBitmap fs v x lt free;
  logged = refl;
  superblock = refl;
  inodes = refl;
}

taken-take_block :
    (fs : Fs) (v : IsBitmap fs) (b bi : ℕ) (lt : b + bi < fs.sb.size) (free : used fs (b + bi) ≡ 0)
    → (b + bi) % bpb ≡ bi
    → bblock (b + bi) fs.sb ≡ bblock b fs.sb
    → taken fs v (b + bi) lt free ≡ take_block b bi fs
unfolding taken take_block
taken-take_block fs v b bi lt free i j =
    ap₂
      (λ bb o.
        bzero (b + bi) (log_write bb (poke bb (o / 8) (fs.cell bb (o / 8) + 2 ^ (o % 8)) fs)))
      j i

-- What `balloc` may give that looks from block `b` on.
abbrev pub Allocates : Fs → ℕ → Outcome (ℕ × Fs) → Type 0
Allocates fs b r =
    ((x : ℕ) × (fs' : Fs) × (r ≡ ok (x, fs')) × IsAllocated fs x fs')
    ⊎ ((r ≡ panic) × ((y : ℕ) → b ≤ y → y < fs.sb.size → used fs y ≢ 0))

balloc_loop-Allocates :
    (fs : Fs)
    → IsBitmap fs
    → (n b : ℕ) → b % bpb ≡ 0
    → fs.sb.size < b + n * bpb
    → Allocates fs b (balloc_loop n b fs)
unfolding balloc_loop
balloc_loop-Allocates fs v zero b m f = inr (refl, (λ y lo lt. absurd (omega arith)))
balloc_loop-Allocates fs v (suc n) b m f = elim (Bool-cases (ltb b fs.sb.size)) [
  | inr t ↦ rw t (inr (refl, (λ y lo lt. absurd (ground arith))))
  | inl t ↦ elim (Option-cases (bit_loop fs b bpb 0)) [
    | inr (bi, e) ↦
        let (p, q, lt, z) = bit_loop-some fs b bpb 0 bi e in
        let i : (b + bi) % bpb ≡ bi = omega arith in
        let j : bblock (b + bi) fs.sb ≡ bblock b fs.sb = omega arith in
        let free : used fs (b + bi) ≡ 0 = rw (i, j) z in
        let same : taken fs v (b + bi) lt free ≡ take_block b bi fs =
          taken-take_block fs v b bi lt free i j in
        inl (
          b + bi,
          take_block b bi fs,
          rw (t, e) refl,
          subst (λ y. IsAllocated fs (b + bi) y) same (taken-IsAllocated fs v (b + bi) lt free),
        )
    | inl e ↦
        let rest = balloc_loop-Allocates fs v n (b + bpb) (omega arith) (omega arith) in
        let here = λ (y : ℕ) (lo : b ≤ y) (hi : y < b + bpb) (lt : y < fs.sb.size).
          bit_loop-none fs b bpb 0 e (y - b) (omega arith) (omega arith) (omega arith) in
        rw (t, e)
          (elim rest [
            | inl r ↦ inl r
            | inr (r, all) ↦ inr (
              r,
              (λ y lo lt. elim (Bool-cases (ltb y (b + bpb))) [
                | inr far ↦ all y (ground arith) lt
                | inl near ↦
                    (let i' : y % bpb ≡ y - b = ground arith in
                      let j' : bblock y fs.sb ≡ bblock b fs.sb = ground arith in
                      let h = here y lo (ground arith) lt in rw (i', j') h)
              ]),
            )
          ])
  ]
]

-- In a file system whose bitmap blocks are used, `balloc` allocates a free block, zeroed, or it panics
-- and no block is free. Of the bitmap only the bit of that block changes, and no other block does.
pub balloc-Allocates : (fs : Fs) → IsBitmap fs → Allocates fs 0 (balloc fs)
unfolding balloc
balloc-Allocates fs v =
    balloc_loop-Allocates fs v (fs.sb.size / bpb + 1) 0 (omega arith) (omega arith)

module _ (fs : Fs) (v : IsBitmap fs) (x : ℕ) (same : readsb fs ≡ fs.sb) (lt : x < fs.sb.size) where
  -- `bfree` of a free block panics.
  pub bfree-free : used fs x ≡ 0 → bfree x fs ≡ panic
  unfolding bfree
  bfree-free z = let t = (==_iff (used fs x) 0).1 z in rw (same, t) refl

  -- Where the superblock in memory is the one on the disk, `bfree` of a used block succeeds, and clears
  -- the bit of that block and no other.
  pub bfree-used :
      used fs x ≢ 0
      → (fs' : Fs) × (bfree x fs ≡ ok fs')
        × ((y : ℕ) → y < fs.sb.size → used fs' y ≡ (if y == x then 0 else used fs y))
        × ((b off : ℕ) → b ≢ bblock x fs.sb → fs'.cell b off ≡ fs.cell b off)
        × (fs'.logged ≡ bblock x fs.sb ∷ fs.logged)
  unfolding bfree
  bfree-used busy =
      let y0 = fs.cell (bblock x fs.sb) (x % bpb / 8) in
      let fs' =
        log_write (bblock x fs.sb)
          (poke (bblock x fs.sb) (x % bpb / 8) (y0 - 2 ^ (x % bpb % 8)) fs) in
      let t : (used fs x == 0) ≡ false = ground arith in
      (
        fs',
        rw (same, t) refl,
        (λ y l. elim (Bool-cases (bblock y fs.sb == bblock x fs.sb && y % bpb / 8 == x % bpb / 8)) [
          | inl h ↦
              let (e, p, q) = same_place x y fs.sb h in
              let s =
                bit-clear y0 (x % bpb % 8) (y % bpb % 8) (v.byte x lt) (omega arith) (omega arith)
                  t in
              rw (h, s.0, e, p, q) refl
          | inr h ↦ rw (h, other_place x y fs.sb h) refl
        ]),
        (λ b off ne. ground arith),
        refl,
      )
