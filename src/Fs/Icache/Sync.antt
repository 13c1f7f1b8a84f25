-- ===== src/Fs/Icache/Sync.antt =====
-- fs.c: iupdate and ilock.
use a.Base.{
  ℕ, zero, suc, ◌+◌, ◌*◌, ◌≤◌, ◌<◌, ◌≡◌, refl, sym, ap, ap₂, ◌∙◌, ◌≢◌, ◌⊎◌, inl, inr, true, List,
  [], ◌∷◌, arith, length,
}
use a.Fs.{Inode, Fs, poke, iblock, ndirect}
use a.Fs.Icache.{read_words, write_words, dinode_at, dinode_size, iupdate_inode, read_inode}

write_words-outside :
    (b off : ℕ) (ws : List ℕ) (fs : Fs) (b' off' : ℕ)
    → (b' ≢ b) ⊎ ((off' < off) ⊎ (off + 4 * length ws ≤ off'))
    → (write_words b off ws fs).cell b' off' ≡ fs.cell b' off'
unfolding write_words
write_words-outside b off [] fs b' off' h = refl
write_words-outside b off (w ∷ ws) fs b' off' h =
    write_words-outside b (off + 4) ws (poke b off w fs) b' off' (narrow h) ∙ ground arith
  where
    narrow :
        (b' ≢ b) ⊎ ((off' < off) ⊎ (off + 4 * length (w ∷ ws) ≤ off'))
        → (b' ≢ b) ⊎ ((off' < off + 4) ⊎ (off + 4 + 4 * length ws ≤ off'))
    narrow (inl ne) = inl ne
    narrow (inr (inl lt)) = inr (inl (omega arith))
    narrow (inr (inr le)) = inr (inr (omega arith))

write_words-sb : (b off : ℕ) (ws : List ℕ) (fs : Fs) → (write_words b off ws fs).sb ≡ fs.sb
unfolding write_words
write_words-sb b off [] fs = refl
write_words-sb b off (w ∷ ws) fs = write_words-sb b (off + 4) ws (poke b off w fs)

write_words-inode : (b off : ℕ) (ws : List ℕ) (fs : Fs) → (write_words b off ws fs).inode ≡ fs.inode
unfolding write_words
write_words-inode b off [] fs = refl
write_words-inode b off (w ∷ ws) fs = write_words-inode b (off + 4) ws (poke b off w fs)

read_words-write_words :
    (b off : ℕ) (ws : List ℕ) (fs : Fs)
    → read_words ((write_words b off ws fs).cell b) (length ws) off ≡ ws
unfolding read_words write_words
read_words-write_words b off [] fs = refl
read_words-write_words b off (w ∷ ws) fs =
    let e = write_words-outside b (off + 4) ws (poke b off w fs) b off (inr (inl (omega arith))) in
    let s : (poke b off w fs).cell b off ≡ w = ground arith in
    ap₂ ◌∷◌ (e ∙ s) (read_words-write_words b (off + 4) ws (poke b off w fs))

read_words-same :
    (f g : ℕ → ℕ) (n off : ℕ)
    → ((x : ℕ) → off ≤ x → x < off + 4 * n → f x ≡ g x)
    → read_words f n off ≡ read_words g n off
unfolding read_words
read_words-same f g zero off h = refl
read_words-same f g (suc n) off h =
    ap₂ ◌∷◌ (h off (omega arith) (omega arith))
      (read_words-same f g n (off + 4) (λ x lo hi. h x (omega arith) (omega arith)))

module _ (n : Inode) (fs : Fs) where
  block : ℕ
  block = iblock n.inum fs.sb

  base : ℕ
  base = dinode_at n.inum

  header : Fs
  header = poke block base n.type (
      poke block (base + 2) n.major (
        poke block (base + 4) n.minor
          (poke block (base + 6) n.nlink (poke block (base + 8) n.size fs))))

  header-cells :
      (header.cell block base ≡ n.type)
      × (header.cell block (base + 2) ≡ n.major)
      × (header.cell block (base + 4) ≡ n.minor)
      × (header.cell block (base + 6) ≡ n.nlink)
      × (header.cell block (base + 8) ≡ n.size)
  unfolding header
  header-cells = (ground arith, ground arith, ground arith, ground arith, ground arith)

  written : Fs
  written = write_words block (base + 12) n.addrs header

  written-cells :
      (written.cell block base ≡ n.type)
      × (written.cell block (base + 2) ≡ n.major)
      × (written.cell block (base + 4) ≡ n.minor)
      × (written.cell block (base + 6) ≡ n.nlink)
      × (written.cell block (base + 8) ≡ n.size)
  unfolding written
  written-cells =
      let (a, b, c, d, e) = header-cells in
      let under = λ (x : ℕ) (lt : x < base + 12).
        write_words-outside block (base + 12) n.addrs header block x (inr (inl lt)) in
      (
        under base (omega arith) ∙ a,
        under (base + 2) (omega arith) ∙ b,
        under (base + 4) (omega arith) ∙ c,
        under (base + 6) (omega arith) ∙ d,
        under (base + 8) (omega arith) ∙ e,
      )

  written-outside :
      (b' off' : ℕ)
      → length n.addrs ≡ ndirect + 1
      → (b' ≢ block) ⊎ ((off' < base) ⊎ (base + dinode_size ≤ off'))
      → written.cell b' off' ≡ fs.cell b' off'
  unfolding written header
  written-outside b' off' len (inl ne) =
      write_words-outside block (base + 12) n.addrs header b' off' (inl ne) ∙ ground arith
  written-outside b' off' len (inr (inl lt)) =
      write_words-outside block (base + 12) n.addrs header b' off' (inr (inl (omega arith)))
      ∙ ground arith
  written-outside b' off' len (inr (inr le)) =
      write_words-outside block (base + 12) n.addrs header b' off' (inr (inr (omega arith)))
      ∙ ground arith

  iupdate_inode-written :
      ((b off : ℕ) → (iupdate_inode n fs).cell b off ≡ written.cell b off)
      × ((iupdate_inode n fs).sb ≡ fs.sb)
  unfolding iupdate_inode written header block base
  iupdate_inode-written =
      ((λ b off. refl), write_words-sb (iblock n.inum fs.sb) (dinode_at n.inum + 12) n.addrs header)

  -- No other block changes.
  pub iupdate_inode-outside :
      (b off : ℕ) → b ≢ iblock n.inum fs.sb → (iupdate_inode n fs).cell b off ≡ fs.cell b off
  unfolding written header block
  iupdate_inode-outside b off ne =
      let (same, sb) = iupdate_inode-written in
      same b off
      ∙ write_words-outside block (base + 12) n.addrs header b off (inl ne)
      ∙ ground arith

  pub iupdate_inode-inode : (iupdate_inode n fs).inode ≡ fs.inode
  unfolding iupdate_inode
  iupdate_inode-inode = write_words-inode (iblock n.inum fs.sb) (dinode_at n.inum + 12) n.addrs _

  -- What `ilock` reads after `iupdate` of an inode with NDIRECT + 1 addresses into any entry `o`
  -- for the same inode: the type, the device numbers, the links, the size and the addresses that
  -- were written, whatever `o` held. The entry becomes valid and keeps its other fields.
  pub read_inode-iupdate :
      (o : Inode)
      → o.inum ≡ n.inum
      → length n.addrs ≡ ndirect + 1
      → read_inode (iupdate_inode n fs) o ≡ record o {
        type = n.type;
        major = n.major;
        minor = n.minor;
        nlink = n.nlink;
        size = n.size;
        addrs = n.addrs;
        valid = true;
      }
  unfolding read_inode block base written
  read_inode-iupdate o num len =
      let (same, sb) = iupdate_inode-written in
      let (a, b, c, d, e) = written-cells in
      let words = read_words-write_words block (base + 12) n.addrs header in
      let fs' = iupdate_inode n fs in
      let at : iblock o.inum fs'.sb ≡ block = ap₂ iblock num sb in
      let start : dinode_at o.inum ≡ base = ap dinode_at num in
      let word : read_words (fs'.cell (iblock o.inum fs'.sb)) (ndirect + 1) (dinode_at o.inum + 12)
          ≡ n.addrs =
        ap₂ (λ k d. read_words (fs'.cell k) (ndirect + 1) (d + 12)) at start
        ∙ read_words-same (fs'.cell block) (written.cell block) (ndirect + 1) (base + 12)
            (λ x lo hi. same block x)
        ∙ ap (λ k. read_words (written.cell block) k (base + 12)) (sym len)
        ∙ words in
      let cell = λ (x v : ℕ) (h : written.cell block (base + x) ≡ v).
        ap₂ (λ k d. fs'.cell k (d + x)) at start ∙ same block (base + x) ∙ h in
      let first = ap₂ (λ k d. fs'.cell k d) at start ∙ same block base ∙ a in
      let p2 = cell 2 n.major b in
      let p3 = cell 4 n.minor c in
      let p4 = cell 6 n.nlink d in
      let p5 = cell 8 n.size e in
      λ i. record o {
        type = first i;
        major = p2 i;
        minor = p3 i;
        nlink = p4 i;
        size = p5 i;
        addrs = word i;
        valid = true;
      }
