-- ===== src/Fs/Icache.antt =====
-- fs.c: the cache of inodes, and inodes on the disk. An inode pointer is a place in the cache.
pub mod Refs
pub mod Sync
use a.Base.{
  ℕ, zero, suc, ◌+◌, ◌-◌, ◌*◌, ◌/◌, ◌%◌, ◌^◌, ◌≤◌, ◌<◌, min, ◌≡◌, refl, sym, ap, ap₂, ◌∙◌, fun_ext,
  ◌≢◌, ◌↔◌, ◌⊎◌, inl, inr, Bool, true, false, ◌&&◌, ◌||◌, not, Option, none, some, List, [], ◌∷◌,
  ◌++◌, map, arith, ltb, leb, ◌==◌, if◌then◌else◌, ==_iff, Bool-cases, Option-cases, length,
  get_elem?, set, take, drop, replicate, modify, All, Outcome, ok, panic, fault, ◌>>=◌, ℤ, pos,
  negsuc, minus_one,
}
use a.Fs.{
  Superblock, Inode, Fs, update_cell, poke, log_write, bblock, iblock, readsb, bzero, bit, bpb, ipb,
  bsize, ndirect, nindirect, maxfile, bit_loop, take_block, balloc_loop, balloc, bfree,
}

-- An inode of the cache, for `ip->...`; a pointer outside the cache faults.
unfoldable pub inode_at : ℕ → Fs → Outcome Inode
inode_at ip fs = elim (get_elem? fs.inode ip) [ none ↦ fault | some n ↦ ok n ]

abbrev pub set_inode : ℕ → (Inode → Inode) → Fs → Fs
set_inode ip f fs = record fs { inode = modify fs.inode ip f }

unfoldable pub acquire : Fs → Outcome Fs
acquire fs = if fs.icache_lock then panic else ok (record fs { icache_lock = true })

unfoldable pub release : Fs → Outcome Fs
release fs = if fs.icache_lock then ok (record fs { icache_lock = false }) else panic

-- `sizeof(struct dinode)`, and where an inode stands in its block
abbrev pub dinode_size : ℕ
dinode_size = 64

abbrev pub dinode_at : ℕ → ℕ
dinode_at inum = inum % ipb * dinode_size

-- `n` words from `off` on, and the writing of words.
unfoldable pub read_words : (ℕ → ℕ) → ℕ → ℕ → List ℕ
read_words cell zero off = []
read_words cell (suc n) off = cell off ∷ read_words cell n (off + 4)

unfoldable pub write_words : ℕ → ℕ → List ℕ → Fs → Fs
write_words b off [] fs = fs
write_words b off (w ∷ ws) fs = write_words b (off + 4) ws (poke b off w fs)

-- `iupdate`, of the inode `n`.
unfoldable pub iupdate_inode : Inode → Fs → Fs
iupdate_inode n fs =
    let b = iblock n.inum fs.sb in
    let d = dinode_at n.inum in
    let fs = poke b d n.type (
      poke b (d + 2) n.major
        (poke b (d + 4) n.minor (poke b (d + 6) n.nlink (poke b (d + 8) n.size fs)))) in
    log_write b (write_words b (d + 12) n.addrs fs)

unfoldable pub iupdate : ℕ → Fs → Outcome Fs
unfolding inode_at
iupdate ip fs = inode_at ip fs >>= λ n. ok (iupdate_inode n fs)

-- What the loop of `iget` finds: the inode, or the first entry with no reference.
pub data Found : Type 0 where
  cached : ℕ → Found
  recycle : Option ℕ → Found

-- `if(empty == 0 && ip->ref == 0) empty = ip;`
abbrev pub remember : Option ℕ → ℕ → Inode → Option ℕ
remember (some j) i n = some j
remember none i n = if n.ref == 0 then some i else none

-- That loop, from place `i` on, with `empty` found before.
unfoldable pub find_loop : ℕ → ℕ → List Inode → ℕ → Option ℕ → Found
find_loop dev inum [] i empty = recycle empty
find_loop dev inum (n ∷ ns) i empty =
    if ltb 0 n.ref && n.dev == dev && n.inum == inum
    then cached i
    else find_loop dev inum ns (i + 1) (remember empty i n)

unfoldable pub iget : ℕ → ℕ → Fs → Outcome (ℕ × Fs)
unfolding acquire release
iget dev inum fs = do
  fs ← acquire fs
  elim (find_loop dev inum fs.inode 0 none) [
    | cached i ↦ release (set_inode i (λ n. record n { ref = n.ref + 1 }) fs) >>= λ fs. ok (i, fs)
    | recycle none ↦ panic
    | recycle (some i) ↦
        release (set_inode i (λ n. record n { dev = dev; inum = inum; ref = 1; valid = false }) fs)
        >>= λ fs. ok (i, fs)
  ]

unfoldable pub idup : ℕ → Fs → Outcome (ℕ × Fs)
unfolding acquire release inode_at
idup ip fs = do
  fs ← acquire fs
  n ← inode_at ip fs
  fs ← release (set_inode ip (λ n. record n { ref = n.ref + 1 }) fs)
  ok (ip, fs)

-- The loop of `ialloc`, with `k` inode numbers from `inum` on; the panic is that after the loop.
unfoldable pub ialloc_loop : ℕ → ℕ → ℕ → ℕ → Fs → Outcome (ℕ × Fs)
ialloc_loop zero inum dev type fs = panic
ialloc_loop (suc k) inum dev type fs =
    let b = iblock inum fs.sb in
    let d = dinode_at inum in
    let rest = ialloc_loop k (inum + 1) dev type fs in
    if fs.cell b d == 0
    then (let cleared = record fs {
      cell =
          λ b' off. if b' == b && leb d off && ltb off (d + dinode_size) then 0 else fs.cell b' off;
    } in
        iget dev inum (log_write b (poke b d type cleared)))
    else rest

unfoldable pub ialloc : ℕ → ℕ → Fs → Outcome (ℕ × Fs)
ialloc dev type fs = ialloc_loop (fs.sb.ninodes - 1) 1 dev type fs

-- The sleep lock of an inode. If this process has it already, `acquiresleep` sleeps for ever, which is
-- a fault here.
unfoldable pub acquiresleep : ℕ → Fs → Outcome Fs
unfolding inode_at
acquiresleep ip fs = do
  n ← inode_at ip fs
  if n.locked then fault else ok (set_inode ip (λ n. record n { locked = true }) fs)

unfoldable pub releasesleep : ℕ → Fs → Outcome Fs
unfolding inode_at
releasesleep ip fs = inode_at ip fs >>= λ n. ok (set_inode ip (λ n. record n { locked = false }) fs)

-- The inode as its block shows it, in the cache entry `n`.
unfoldable pub read_inode : Fs → Inode → Inode
read_inode fs n =
    let c = fs.cell (iblock n.inum fs.sb) in
    let d = dinode_at n.inum in
    record n {
      type = c d;
      major = c (d + 2);
      minor = c (d + 4);
      nlink = c (d + 6);
      size = c (d + 8);
      addrs = read_words c (ndirect + 1) (d + 12);
      valid = true;
    }

unfoldable pub ilock : ℕ → Fs → Outcome Fs
unfolding inode_at acquiresleep
ilock ip fs = do
  n ← inode_at ip fs
  if ltb n.ref 1 then panic else (do
    fs ← acquiresleep ip fs
    n ← inode_at ip fs
    if n.valid
        then ok fs
        else if (read_inode fs n).type == 0
        then panic
        else ok (set_inode ip (read_inode fs) fs))

unfoldable pub iunlock : ℕ → Fs → Outcome Fs
unfolding inode_at
iunlock ip fs = do
  n ← inode_at ip fs
  if not n.locked || ltb n.ref 1 then panic else releasesleep ip fs

-- `struct stat`, as `stati` fills it.
pub record Stat : Type 0 where
  pub dev : ℕ
  pub ino : ℕ
  pub type : ℕ
  pub nlink : ℕ
  pub size : ℕ

unfoldable pub stati : ℕ → Fs → Outcome Stat
unfolding inode_at
stati ip fs = inode_at ip fs >>= λ n.
    ok (record { dev = n.dev; ino = n.inum; type = n.type; nlink = n.nlink; size = n.size })
