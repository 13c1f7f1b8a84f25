-- ===== src/Fs/Content/Stored.antt =====
-- fs.c: writei and readi in the direct blocks of a file.
use a.Base.{
  ℕ, zero, suc, ◌+◌, ◌-◌, ◌*◌, ◌/◌, ◌%◌, ◌≤◌, ◌<◌, min, ◌≡◌, refl, sym, ap, ◌∙◌, ◌≢◌, ◌⊎◌, inl, inr,
  true, false, ◌&&◌, ◌||◌, some, List, [], ◌∷◌, arith, ltb, ◌==◌, if◌then◌else◌, ==_iff, Bool-cases,
  length, get_elem?, take, drop, ok, get_or, get_elem?-modify_self, length-take, length-drop,
  append-take,
}
use a.Fs.{maxfile, Fs, Inode, log_write, iblock, bsize, ndirect}
use a.Fs.Icache.{set_inode, inode_at, iupdate, iupdate_inode, set_inode}
use a.Fs.Icache.Sync.{iupdate_inode-outside, iupdate_inode-inode}
use a.Fs.Content.{
  Devsw, t_dev, bmap, own_block, addr_at, put_cells, read_loop, readi, write_loop, grow, writei,
  wraps,
}
use a.Fs.Content.Bytes.{
  block_of, view, store, view-append, store-append, cells-view, put_cells-store, put_cells-others,
  view-same, IsApart, store-outside, view-store,
}

get_elem?-get_or : (xs : List ℕ) (i : ℕ) → get_or xs i 0 ≢ 0 → get_elem? xs i ≡ some (get_or xs i 0)
get_elem?-get_or [] i h = absurd (h refl)
get_elem?-get_or (x ∷ xs) zero h = refl
get_elem?-get_or (x ∷ xs) (suc i) h = get_elem?-get_or xs i h

-- A block that is there is not allocated again.
own_block-kept :
    (ip k a : ℕ) (n : Inode) (fs : Fs)
    → get_elem? fs.inode ip ≡ some n
    → get_elem? n.addrs k ≡ some a
    → a ≢ 0
    → own_block ip k fs ≡ ok (a, fs)
unfolding own_block addr_at inode_at
own_block-kept ip k a n fs at g ne =
    let node : inode_at ip fs ≡ ok n = rw (inode_at, at) refl in
    let addr : addr_at k n ≡ ok a = rw (addr_at, g) refl in
    let z : (a == 0) ≡ false = ground arith in rw (own_block, node, addr, z) refl

module _ (addrs : List ℕ) (blocks : ℕ) (v : IsApart addrs blocks) (ip : ℕ) where
  -- The inode has these block numbers.
  HasAddrs : Fs → Type 0
  HasAddrs fs = (n : Inode) × (get_elem? fs.inode ip ≡ some n) × (n.addrs ≡ addrs)

  HasAddrs-same : (f g : Fs) → g.inode ≡ f.inode → HasAddrs f → HasAddrs g
  unfolding HasAddrs
  HasAddrs-same f g e (n, at, same) = (n, ap (λ ns. get_elem? ns ip) e ∙ at, same)

  bmap-block_of :
      (x : ℕ) (fs : Fs)
      → HasAddrs fs
      → x < blocks * bsize
      → bmap ip (x / bsize) fs ≡ ok (block_of addrs x, fs)
  unfolding bmap HasAddrs
  bmap-block_of x fs (n, at, same) lt =
      let le = v.direct in
      let direct : ltb (x / bsize) ndirect ≡ true = ground arith in
      let own = v.owned (x / bsize) (omega arith) in
      let g : get_elem? n.addrs (x / bsize) ≡ some (block_of addrs x) =
        rw same (get_elem?-get_or addrs (x / bsize) own) in
      let kept = own_block-kept ip (x / bsize) (block_of addrs x) n fs at g own in
      rw (direct, kept) refl

  read_loop-view :
      (k x n : ℕ) (fs : Fs)
      → HasAddrs fs
      → n ≤ k
      → x + n ≤ blocks * bsize
      → read_loop k ip x n fs ≡ ok (view addrs fs.cell x n, fs)
  unfolding read_loop view
  read_loop-view zero x zero fs h le lt = refl
  read_loop-view zero x (suc n) fs h le lt = absurd (omega arith)
  read_loop-view (suc k) x n fs h le lt = elim (Bool-cases (n == 0)) [
    | inl t ↦ let z : n ≡ 0 = (==_iff n 0).0 t in rw z refl
    | inr t ↦
        let m = min n (bsize - x % bsize) in
        let map = bmap-block_of x fs h (ground arith) in
        let ih = read_loop-view k (x + m) (n - m) fs h (ground arith) (ground arith) in
        let part = cells-view addrs fs.cell x m (omega arith) in
        let whole : m + (n - m) ≡ n = omega arith in
        let join = view-append addrs fs.cell x m (n - m) ∙ ap (view addrs fs.cell x) whole in
        rw (t, map, ih, part) (ap (λ l. ok (l, fs)) join)
  ]

  write_loop-store :
      (k x : ℕ) (src : List ℕ) (fs : Fs)
      → HasAddrs fs
      → length src ≤ k
      → x + length src ≤ blocks * bsize
      → (fs' : Fs) × (write_loop k ip x src fs ≡ ok fs')
        × (fs'.cell ≡ store addrs x src fs.cell)
        × (fs'.inode ≡ fs.inode)
        × (fs'.sb ≡ fs.sb)
  unfolding write_loop store
  write_loop-store zero x [] fs h le lt = (fs, refl, refl, refl, refl)
  write_loop-store zero x (c ∷ src) fs h le lt = absurd (omega arith)
  write_loop-store (suc k) x [] fs h le lt = (fs, refl, refl, refl, refl)
  write_loop-store (suc k) x (c ∷ cs) fs h le lt =
      let src = c ∷ cs in
      let m = min (length src) (bsize - x % bsize) in
      let m_le : m ≤ length src = omega arith in
      let m_pos : 0 < m = omega arith in
      let t : (length src == 0) ≡ false = ground arith in
      let map = bmap-block_of x fs h (omega arith) in
      let b = block_of addrs x in
      let fs1 = log_write b (put_cells b (x % bsize) (take m src) fs) in
      let (i1, s1) = put_cells-others b (x % bsize) (take m src) fs in
      let taken = length-take m src m_le in
      let left = length-drop m src in
      let c1 = put_cells-store addrs x (take m src) fs (omega arith) in
      let h1 : HasAddrs fs1 = HasAddrs-same fs fs1 i1 h in
      let (fs2, r, c2, i2, s2) =
        write_loop-store k (x + m) (drop m src) fs1 h1 (omega arith) (omega arith) in
      let join : store addrs (x + m) (drop m src) (store addrs x (take m src) fs.cell)
          ≡ store addrs x src fs.cell =
        ap (λ l. store addrs (x + l) (drop m src) (store addrs x (take m src) fs.cell)) (sym taken)
        ∙ store-append addrs x (take m src) (drop m src) fs.cell
        ∙ ap (λ l. store addrs x l fs.cell) (append-take m src) in
      (fs2, rw (t, map) r, c2 ∙ ap (store addrs (x + m) (drop m src)) c1 ∙ join, i2 ∙ i1, s2 ∙ s1)

-- An inode of the cache that is not a device, with its first blocks allocated, apart from each other and
-- from the block of the inode itself.
pub record IsFile (ip : ℕ) (n : Inode) (blocks : ℕ) (fs : Fs) : Type 0 where
  pub node : get_elem? fs.inode ip ≡ some n
  pub plain : n.type ≢ t_dev
  pub blocks_apart : IsApart n.addrs blocks
  pub inode_apart : (i : ℕ) → i < blocks → get_or n.addrs i 0 ≢ iblock n.inum fs.sb

-- What `readi` does for bytes that are there, in the allocated direct blocks.
readi-view :
    (devsw : Devsw) (ip x n : ℕ) (i : Inode) (blocks : ℕ) (fs : Fs)
    → get_elem? fs.inode ip ≡ some i
    → i.type ≢ t_dev
    → IsApart i.addrs blocks
    → x + n ≤ i.size
    → x + n ≤ blocks * bsize
    → readi devsw ip x n fs ≡ ok (some (view i.addrs fs.cell x n), fs)
unfolding readi inode_at HasAddrs
readi-view devsw ip x n i blocks fs at plain v size le =
    let d = v.direct in
    let node : inode_at ip fs ≡ ok i = rw (inode_at, at) refl in
    let p : (i.type == t_dev) ≡ false = ground arith in
    let q : (ltb i.size x || wraps x n) ≡ false = ground arith in
    let s : ltb i.size (x + n) ≡ false = ground arith in
    let loop = read_loop-view i.addrs blocks v ip n x n fs (i, at, refl) (omega arith) le in
    rw (node, p, q, s, loop) refl

-- The size that `writei` leaves.
abbrev pub grown : Inode → ℕ → ℕ → ℕ
grown n off len = if ltb 0 len && ltb n.size (off + len) then off + len else n.size

grown_enough : (n : Inode) (off len : ℕ) → off ≤ n.size → off + len ≤ grown n off len
grown_enough n off len le = elim (Bool-cases (ltb 0 len && ltb n.size (off + len))) [
  | inl t ↦ rw t (omega arith)
  | inr t ↦ rw t (ground arith)
]

grow-Grown :
    (ip : ℕ) (n : Inode) (off len : ℕ) (fs : Fs)
    → get_elem? fs.inode ip ≡ some n
    → (fs' : Fs) × (grow ip (off + len) len fs ≡ ok fs')
      × (get_elem? fs'.inode ip ≡ some (record n { size = grown n off len }))
      × ((b o : ℕ) → b ≢ iblock n.inum fs.sb → fs'.cell b o ≡ fs.cell b o)
unfolding grow inode_at iupdate
grow-Grown ip n off len fs at =
    let node : inode_at ip fs ≡ ok n = rw (inode_at, at) refl in
    let fs1 = set_inode ip (λ n. record n { size = off + len }) fs in
    let n1 = record n { size = off + len } in
    let at1 : get_elem? fs1.inode ip ≡ some n1 =
      get_elem?-modify_self fs.inode ip (λ n. record n { size = off + len }) at in
    let node1 : inode_at ip fs1 ≡ ok n1 = rw (inode_at, at1) refl in
    elim (Bool-cases (ltb 0 len && ltb n.size (off + len))) [
      | inr t ↦ (fs, rw (node, t) refl, rw t at, λ b o ne. refl)
      | inl t ↦ (
        iupdate_inode n1 fs1,
        rw (node, t, node1) refl,
        rw t (ap (λ ns. get_elem? ns ip) (iupdate_inode-inode n1 fs1) ∙ at1),
        λ b o ne. iupdate_inode-outside n1 fs1 b o ne,
      )
    ]

-- Writing to a file that is not a device, within its allocated direct blocks and not behind its end, writes
-- all bytes, and reading as many from there gives them back. No other byte of these blocks changes, and the
-- file is as long as it was, or as far as was written.
pub writei-readi :
    (devsw : Devsw) (ip off : ℕ) (src : List ℕ) (n : Inode) (blocks : ℕ) (fs : Fs)
    → IsFile ip n blocks fs
    → off ≤ n.size
    → off + length src ≤ blocks * bsize
    → (fs' : Fs) × (writei devsw ip src off fs ≡ ok (some (length src), fs'))
      × (readi devsw ip off (length src) fs' ≡ ok (some src, fs'))
      × ((x : ℕ)
          → x < blocks * bsize
          → (x < off) ⊎ (off + length src ≤ x)
          → fs'.cell (block_of n.addrs x) (x % bsize) ≡ fs.cell (block_of n.addrs x) (x % bsize))
      × (get_elem? fs'.inode ip ≡ some (record n { size = grown n off (length src) }))
unfolding writei inode_at HasAddrs
writei-readi devsw ip off src n blocks fs f within le =
    let v = f.blocks_apart in
    let d = v.direct in
    let at = f.node in
    let ne = f.plain in
    let len = length src in
    let node : inode_at ip fs ≡ ok n = rw (inode_at, at) refl in
    let p : (n.type == t_dev) ≡ false = ground arith in
    let q : (ltb n.size off || wraps off len) ≡ false = ground arith in
    let s : ltb (maxfile * bsize) (off + len) ≡ false = ground arith in
    let (fs1, r1, c1, i1, s1) =
      write_loop-store n.addrs blocks v ip len off src fs (n, at, refl) (omega arith) le in
    let at1 : get_elem? fs1.inode ip ≡ some n = ap (λ ns. get_elem? ns ip) i1 ∙ at in
    let (fs2, r2, at2, c2) = grow-Grown ip n off len fs1 at1 in
    let kept = λ (x : ℕ) (lt : x < blocks * bsize).
      c2 (block_of n.addrs x) (x % bsize)
        (λ e. f.inode_apart (x / bsize) (omega arith) (e ∙ ap (iblock n.inum) s1))
      ∙ ap (λ c. c (block_of n.addrs x) (x % bsize)) c1 in
    let back : view n.addrs fs2.cell off len ≡ src =
      view-same n.addrs fs2.cell (store n.addrs off src fs.cell) off len
        (λ y lo hi. kept y (omega arith))
      ∙ view-store n.addrs blocks v off src fs.cell le in
    let size : off + len ≤ grown n off len = grown_enough n off len within in
    (
      fs2,
      rw (node, p, q, s, r1, r2) refl,
      readi-view devsw ip off len (record n { size = grown n off len }) blocks fs2 at2 ne v size le
          ∙ ap (λ l. ok (some l, fs2)) back,
      (λ x lt h. kept x lt ∙ store-outside n.addrs blocks v off src fs.cell x le lt h),
      at2,
    )
