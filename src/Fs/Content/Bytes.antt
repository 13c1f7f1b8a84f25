-- ===== src/Fs/Content/Bytes.antt =====
-- fs.c: the bytes of a file in its direct blocks, apart from how readi and writei go over them.
use a.Base.{
  ℕ, zero, suc, ◌+◌, ◌*◌, ◌/◌, ◌%◌, ◌≤◌, ◌<◌, ◌≡◌, refl, ap, ap₂, ◌∙◌, ◌≢◌, ◌⊎◌, inl, inr, List, [],
  ◌∷◌, ◌++◌, arith, ◌==◌, ==_iff, Bool-cases, length, get_or,
}
use a.Fs.{Fs, update_cell, poke, bsize, ndirect}
use a.Fs.Content.{cells, put_cells}

-- The block of byte `x` of a file with these block numbers.
abbrev pub block_of : List ℕ → ℕ → ℕ
block_of addrs x = get_or addrs (x / bsize) 0

-- `n` bytes from `x` on, one by one, and the writing of bytes.
unfoldable pub view : List ℕ → (ℕ → ℕ → ℕ) → ℕ → ℕ → List ℕ
view addrs cell x zero = []
view addrs cell x (suc n) = cell (block_of addrs x) (x % bsize) ∷ view addrs cell (x + 1) n

unfoldable pub store : List ℕ → ℕ → List ℕ → (ℕ → ℕ → ℕ) → ℕ → ℕ → ℕ
store addrs x [] cell = cell
store addrs x (c ∷ cs) cell =
    store addrs (x + 1) cs (update_cell cell (block_of addrs x) (x % bsize) c)

pub view-append :
    (addrs : List ℕ) (cell : ℕ → ℕ → ℕ) (x m n : ℕ)
    → view addrs cell x m ++ view addrs cell (x + m) n ≡ view addrs cell x (m + n)
unfolding view
view-append addrs cell x zero n =
    let z : x + 0 ≡ x = omega arith in
    let w : n ≡ 0 + n = omega arith in ap₂ (λ u k. view addrs cell u k) z w
view-append addrs cell x (suc m) n =
    let z : x + suc m ≡ x + 1 + m = omega arith in
    let w : suc m + n ≡ suc (m + n) = omega arith in
    rw (z, w)
      (ap (λ l. cell (block_of addrs x) (x % bsize) ∷ l) (view-append addrs cell (x + 1) m n))

pub store-append :
    (addrs : List ℕ) (x : ℕ) (cs ds : List ℕ) (cell : ℕ → ℕ → ℕ)
    → store addrs (x + length cs) ds (store addrs x cs cell) ≡ store addrs x (cs ++ ds) cell
unfolding store
store-append addrs x [] ds cell =
    let z : x + 0 ≡ x = omega arith in ap (λ u. store addrs u ds cell) z
store-append addrs x (c ∷ cs) ds cell =
    let z : x + suc (length cs) ≡ x + 1 + length cs = omega arith in
    rw z (store-append addrs (x + 1) cs ds (update_cell cell (block_of addrs x) (x % bsize) c))

-- Within a block, the copying of cells is that of bytes.
pub cells-view :
    (addrs : List ℕ) (cell : ℕ → ℕ → ℕ) (x m : ℕ)
    → x % bsize + m ≤ bsize
    → cells (cell (block_of addrs x)) (x % bsize) m ≡ view addrs cell x m
unfolding cells view
cells-view addrs cell x zero h = refl
cells-view addrs cell x (suc zero) h = refl
cells-view addrs cell x (suc (suc m)) h =
    let q : x / bsize ≡ (x + 1) / bsize = omega arith in
    let r : x % bsize + 1 ≡ (x + 1) % bsize = omega arith in
    ap (λ l. cell (block_of addrs x) (x % bsize) ∷ l)
      (ap₂ (λ b o. cells (cell (get_or addrs b 0)) o (suc m)) q r
        ∙ cells-view addrs cell (x + 1) (suc m) (omega arith))

pub put_cells-store :
    (addrs : List ℕ) (x : ℕ) (cs : List ℕ) (fs : Fs)
    → x % bsize + length cs ≤ bsize
    → (put_cells (block_of addrs x) (x % bsize) cs fs).cell ≡ store addrs x cs fs.cell
unfolding put_cells store
put_cells-store addrs x [] fs h = refl
put_cells-store addrs x (c ∷ []) fs h = refl
put_cells-store addrs x (c ∷ d ∷ cs) fs h =
    let q : x / bsize ≡ (x + 1) / bsize = omega arith in
    let r : x % bsize + 1 ≡ (x + 1) % bsize = omega arith in
    let fs' = poke (block_of addrs x) (x % bsize) c fs in
    ap₂ (λ b o. (put_cells (get_or addrs b 0) o (d ∷ cs) fs').cell) q r
    ∙ put_cells-store addrs (x + 1) (d ∷ cs) fs' (omega arith)

pub put_cells-others :
    (b off : ℕ) (cs : List ℕ) (fs : Fs)
    → ((put_cells b off cs fs).inode ≡ fs.inode) × ((put_cells b off cs fs).sb ≡ fs.sb)
unfolding put_cells
put_cells-others b off [] fs = (refl, refl)
put_cells-others b off (c ∷ cs) fs = put_cells-others b (off + 1) cs (poke b off c fs)

pub view-same :
    (addrs : List ℕ) (f g : ℕ → ℕ → ℕ) (x n : ℕ)
    → ((y : ℕ)
        → x ≤ y
        → y < x + n
        → f (block_of addrs y) (y % bsize) ≡ g (block_of addrs y) (y % bsize))
    → view addrs f x n ≡ view addrs g x n
unfolding view
view-same addrs f g x zero h = refl
view-same addrs f g x (suc n) h =
    ap₂ ◌∷◌ (h x (omega arith) (omega arith))
      (view-same addrs f g (x + 1) n (λ y lo hi. h y (omega arith) (omega arith)))

-- The first `n` blocks are allocated, and are different blocks.
pub record IsApart (addrs : List ℕ) (n : ℕ) : Type 0 where
  pub direct : n ≤ ndirect
  pub owned : (i : ℕ) → i < n → get_or addrs i 0 ≢ 0
  pub apart : (i j : ℕ) → i < n → j < n → get_or addrs i 0 ≡ get_or addrs j 0 → i ≡ j

module _ (addrs : List ℕ) (n : ℕ) (v : IsApart addrs n) where
  -- Two bytes do not share a cell.
  pub place-apart :
      (x y : ℕ)
      → x < n * bsize
      → y < n * bsize
      → x ≢ y
      → (block_of addrs x ≢ block_of addrs y) ⊎ ((x % bsize) ≢ (y % bsize))
  place-apart x y lx ly ne = elim (Bool-cases (x % bsize == y % bsize)) [
    | inl t ↦ inl (λ e.
        let q = v.apart (x / bsize) (y / bsize) (omega arith) (omega arith) e in
        let r = (==_iff (x % bsize) (y % bsize)).0 t in ne (omega (arith, q, r)))
    | inr t ↦ inr (ground arith)
  ]

  pub store-outside :
      (x : ℕ) (cs : List ℕ) (cell : ℕ → ℕ → ℕ) (y : ℕ)
      → x + length cs ≤ n * bsize
      → y < n * bsize
      → (y < x) ⊎ (x + length cs ≤ y)
      → store addrs x cs cell (block_of addrs y) (y % bsize) ≡ cell (block_of addrs y) (y % bsize)
  unfolding store
  store-outside x [] cell y le lt h = refl
  store-outside x (c ∷ cs) cell y le lt h =
      store-outside (x + 1) cs (update_cell cell (block_of addrs x) (x % bsize) c) y (omega arith)
        lt (omega arith)
      ∙ elim (place-apart y x lt (omega arith) (omega arith)) [
        | inl ne ↦ ground arith
        | inr ne ↦ ground arith
      ]

  pub view-store :
      (x : ℕ) (cs : List ℕ) (cell : ℕ → ℕ → ℕ)
      → x + length cs ≤ n * bsize
      → view addrs (store addrs x cs cell) x (length cs) ≡ cs
  unfolding view store
  view-store x [] cell le = refl
  view-store x (c ∷ cs) cell le =
      let cell' = update_cell cell (block_of addrs x) (x % bsize) c in
      let now : cell' (block_of addrs x) (x % bsize) ≡ c = ground arith in
      ap₂ ◌∷◌
        (store-outside (x + 1) cs cell' x (omega arith) (omega arith) (inl (omega arith)) ∙ now)
        (view-store (x + 1) cs cell' (omega arith))
