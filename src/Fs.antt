-- ===== src/Fs.antt =====
-- fs.c: the state of the file system, and its lowest layer, the disk blocks and their bitmap.
-- The contents of a block are cells: at each offset stands the value of the byte, short or uint that
-- the code stores there.
pub mod Bits
pub mod Bitmap
pub mod Icache
pub mod Content
pub mod Dir
pub mod Path
use a.Base.{
  ℕ, zero, suc, ◌+◌, ◌-◌, ◌*◌, ◌/◌, ◌%◌, ◌^◌, ◌≤◌, ◌<◌, min, ◌≡◌, refl, sym, ap, ap₂, ◌∙◌, fun_ext,
  ◌≢◌, ◌↔◌, ◌⊎◌, inl, inr, Bool, true, false, ◌&&◌, ◌||◌, not, Option, none, some, List, [], ◌∷◌,
  ◌++◌, map, arith, ltb, leb, ◌==◌, if◌then◌else◌, ==_iff, Bool-cases, Option-cases, length,
  get_elem?, set, take, drop, replicate, modify, All, Outcome, ok, panic, fault, ◌>>=◌, ℤ, pos,
  negsuc, minus_one,
}

abbrev pub bsize : ℕ
bsize = 512

abbrev pub ndirect : ℕ
ndirect = 12

abbrev pub nindirect : ℕ
nindirect = 128

abbrev pub maxfile : ℕ
maxfile = ndirect + nindirect

-- bits of the bitmap, and inodes, in a block
abbrev pub bpb : ℕ
bpb = bsize * 8

abbrev pub ipb : ℕ
ipb = 8

-- `struct superblock`
pub record Superblock : Type 0 where
  pub size : ℕ
  pub nblocks : ℕ
  pub ninodes : ℕ
  pub nlog : ℕ
  pub logstart : ℕ
  pub inodestart : ℕ
  pub bmapstart : ℕ

-- `struct inode`. `locked` says whether this process holds the sleep lock.
pub record Inode : Type 0 where
  pub dev : ℕ
  pub inum : ℕ
  pub ref : ℕ
  pub locked : Bool
  pub valid : Bool
  pub type : ℕ
  pub major : ℕ
  pub minor : ℕ
  pub nlink : ℕ
  pub size : ℕ
  pub addrs : List ℕ
  pub container_id : ℕ

-- `sb`, `icache`, the block contents that `bread` shows, and the blocks passed to `log_write`, the
-- last one first.
pub record Fs : Type 0 where
  pub sb : Superblock
  pub cell : ℕ → ℕ → ℕ
  pub logged : List ℕ
  pub icache_lock : Bool
  pub inode : List Inode

abbrev pub update_cell : (ℕ → ℕ → ℕ) → ℕ → ℕ → ℕ → ℕ → ℕ → ℕ
update_cell cell b off v b' off' = if b' == b && off' == off then v else cell b' off'

-- A write of the cell at `off` of block `b`.
abbrev pub poke : ℕ → ℕ → ℕ → Fs → Fs
poke b off v fs = record fs { cell = update_cell fs.cell b off v }

-- `log_write` of the buffer of block `b`
abbrev pub log_write : ℕ → Fs → Fs
log_write b fs = record fs { logged = b ∷ fs.logged }

abbrev pub bblock : ℕ → Superblock → ℕ
bblock b sb = b / bpb + sb.bmapstart

abbrev pub iblock : ℕ → Superblock → ℕ
iblock i sb = i / ipb + sb.inodestart

-- `readsb`: the superblock, in block 1.
unfoldable pub readsb : Fs → Superblock
readsb fs = record {
  size = fs.cell 1 0;
  nblocks = fs.cell 1 4;
  ninodes = fs.cell 1 8;
  nlog = fs.cell 1 12;
  logstart = fs.cell 1 16;
  inodestart = fs.cell 1 20;
  bmapstart = fs.cell 1 24;
}

unfoldable pub bzero : ℕ → Fs → Fs
bzero bno fs = log_write bno (record fs { cell = λ b off. if b == bno then 0 else fs.cell b off })

-- Bit `k` of a byte: `y & (1 << k)`, as 0 or 1.
abbrev pub bit : ℕ → ℕ → ℕ
bit y k = y / 2 ^ k % 2

-- The inner loop of `balloc`, `n` bits from `bi` on, in the bitmap block for the blocks from `b` on.
unfoldable pub bit_loop : Fs → ℕ → ℕ → ℕ → Option ℕ
bit_loop fs b zero bi = none
bit_loop fs b (suc n) bi =
    let rest = bit_loop fs b n (bi + 1) in
    if ltb (b + bi) fs.sb.size
    then (if bit (fs.cell (bblock b fs.sb) (bi / 8)) (bi % 8) == 0 then some bi else rest)
    else none

-- What the inner loop does at the free bit `bi`; the bit is clear, so that `|= m` adds `m`.
unfoldable pub take_block : ℕ → ℕ → Fs → Fs
take_block b bi fs =
    let bb = bblock b fs.sb in
    bzero (b + bi) (log_write bb (poke bb (bi / 8) (fs.cell bb (bi / 8) + 2 ^ (bi % 8)) fs))

-- The outer loop of `balloc`, from `b` on. Each of its `n` rounds moves on by BPB blocks.
unfoldable pub balloc_loop : ℕ → ℕ → Fs → Outcome (ℕ × Fs)
balloc_loop zero b fs = panic
balloc_loop (suc n) b fs =
    let rest = balloc_loop n (b + bpb) fs in
    if ltb b fs.sb.size
    then elim (bit_loop fs b bpb 0) [ some bi ↦ ok (b + bi, take_block b bi fs) | none ↦ rest ]
    else panic

-- `sb.size / BPB + 1` rounds are all that the loop can make.
unfoldable pub balloc : Fs → Outcome (ℕ × Fs)
balloc fs = balloc_loop (fs.sb.size / bpb + 1) 0 fs

-- The bit is set where it is cleared, so that `&= ~m` subtracts `m`.
unfoldable pub bfree : ℕ → Fs → Outcome Fs
bfree b fs =
    let fs = record fs { sb = readsb fs } in
    let bb = bblock b fs.sb in
    let bi = b % bpb in
    let y = fs.cell bb (bi / 8) in
    if bit y (bi % 8) == 0
    then panic
    else ok (log_write bb (poke bb (bi / 8) (y - 2 ^ (bi % 8)) fs))
