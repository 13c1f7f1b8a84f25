-- ===== src/Tests/Blocks.antt =====
-- The file system on a small disk: four blocks, the superblock in block 1 and the bitmap in block 2.
use a.Base.{
  ℕ, zero, suc, ◌+◌, ◌<◌, ◌≡◌, refl, ap, true, false, none, some, List, [], ◌∷◌, arith, replicate,
  ok, some-injective, ◌*◌, ◌⊎◌, ◌≤◌, ◌%◌, get_elem?,
}
use a.Fs.{bsize, Superblock, Inode, Fs, update_cell, readsb, balloc, ndirect}
use a.Fs.Bitmap.{IsBitmap, Allocates, balloc-Allocates}
use a.Fs.Icache.{iget, iupdate_inode, read_inode}
use a.Fs.Icache.Refs.{IsCache, Gets, iget-Gets}
use a.Fs.Icache.Sync.{read_inode-iupdate}
use a.Fs.Content.{Devsw, writei, readi}
use a.Fs.Content.Bytes.{IsApart, block_of}
use a.Fs.Content.Stored.{IsFile, grown, writei-readi}
use a.Fs.Path.{skipelem, walk, slash}
use a.Fs.Path.Elements.{SkipOk, skipelem-SkipOk, walk_or, walk-enough}

abbrev sb0 : Superblock
sb0 = record {
  size = 4;
  nblocks = 1;
  ninodes = 8;
  nlog = 0;
  logstart = 0;
  inodestart = 0;
  bmapstart = 2;
}

abbrev cell0 : ℕ → ℕ → ℕ
cell0 =
    update_cell
      (update_cell (update_cell (update_cell (update_cell (λ b off. 0) 1 0 4) 1 4 1) 1 8 8) 1 24 2)
      2 0 7

abbrev inode0 : Inode
inode0 = record {
  dev = 1;
  inum = 1;
  ref = 1;
  locked = false;
  valid = true;
  type = 1;
  major = 0;
  minor = 0;
  nlink = 1;
  size = 32;
  addrs = replicate (ndirect + 1) 0;
  container_id = 0;
}

abbrev pub fs0 : Fs
fs0 = record {
  sb = sb0;
  cell = cell0;
  logged = [];
  icache_lock = false;
  inode = inode0 ∷ record inode0 { inum = 2; ref = 0 } ∷ [];
}

fs0-IsBitmap : IsBitmap fs0
fs0-IsBitmap = record {
  byte = elim [
    | zero ↦ λ lt. omega arith
    | suc zero ↦ λ lt. omega arith
    | suc (suc zero) ↦ λ lt. omega arith
    | suc (suc (suc zero)) ↦ λ lt. omega arith
    | suc (suc (suc (suc n))) ↦ λ lt. omega arith
  ];
  own = elim [
    | zero ↦ λ lt. (omega arith, omega arith)
    | suc zero ↦ λ lt. (omega arith, omega arith)
    | suc (suc zero) ↦ λ lt. (omega arith, omega arith)
    | suc (suc (suc zero)) ↦ λ lt. (omega arith, omega arith)
    | suc (suc (suc (suc n))) ↦ λ lt. omega arith
  ];
}

balloc-Allocates_example : Allocates fs0 0 (balloc fs0)
balloc-Allocates_example = balloc-Allocates fs0 fs0-IsBitmap

readsb-fs0 : readsb fs0 ≡ sb0
unfolding readsb
readsb-fs0 = refl

fs0-IsCache : IsCache fs0.inode
fs0-IsCache zero zero n m a b h e = refl
fs0-IsCache zero (suc zero) n m a b h e =
    let r : 0 ≡ m.ref = ap (λ n. n.ref) (some-injective _ _ b) in absurd (omega (arith, r, e.0))
fs0-IsCache zero (suc (suc j)) n m a b h e = cc
fs0-IsCache (suc zero) j n m a b h e =
    let r : 0 ≡ n.ref = ap (λ n. n.ref) (some-injective _ _ a) in absurd (omega (arith, r, h))
fs0-IsCache (suc (suc i)) j n m a b h e = cc

iget-Gets_example : Gets 1 2 fs0 (iget 1 2 fs0)
iget-Gets_example = iget-Gets 1 2 fs0 fs0-IsCache refl

-- An entry that iget has just taken over from another inode.
abbrev recycled : Inode
recycled = record inode0 { type = 7; nlink = 9; size = 4096; addrs = []; ref = 1; valid = false }

read_inode-iupdate_example :
    read_inode (iupdate_inode inode0 fs0) recycled ≡ record inode0 { ref = 1 }
read_inode-iupdate_example = read_inode-iupdate inode0 fs0 recycled refl refl

-- "/a//b"
abbrev path0 : List ℕ
path0 = slash ∷ b'a' ∷ slash ∷ slash ∷ b'b' ∷ []

skipelem-path0 : skipelem path0 (replicate 14 1) ≡ some (b'b' ∷ [], b'a' ∷ 0 ∷ replicate 12 1)
unfolding skipelem
skipelem-path0 = refl

skipelem-SkipOk_example : SkipOk path0 (replicate 14 1) (skipelem path0 (replicate 14 1))
skipelem-SkipOk_example = skipelem-SkipOk path0 (replicate 14 1)

abbrev devsw0 : Devsw
devsw0 = record { read = λ major. none; write = λ major. none }

walk-enough_example :
    walk devsw0 20 path0 false (replicate 14 0) 0 fs0
    ≡ walk_or (ok (none, fs0)) devsw0 6 path0 false (replicate 14 0) 0 fs0
walk-enough_example =
    walk-enough (ok (none, fs0)) devsw0 20 path0 false (replicate 14 0) 0 fs0 (omega arith)

-- A file of 600 bytes in blocks 5 and 6.
abbrev file_node : Inode
file_node = record inode0 { type = 2; size = 600; addrs = 5 ∷ 6 ∷ replicate 11 0 }

abbrev fs_file : Fs
fs_file = record fs0 { inode = file_node ∷ [] }

two_blocks-IsApart : IsApart file_node.addrs 2
two_blocks-IsApart = record {
  direct = omega arith;
  owned = elim [
    | zero ↦ λ lt. omega arith
    | suc zero ↦ λ lt. omega arith
    | suc (suc i) ↦ λ lt. omega arith
  ];
  apart = elim [
    | zero ↦ elim [
      | zero ↦ λ a b e. refl
      | suc zero ↦ λ a b e. omega arith
      | suc (suc j) ↦ λ a b e. omega arith
    ]
    | suc zero ↦ elim [
      | zero ↦ λ a b e. omega arith
      | suc zero ↦ λ a b e. refl
      | suc (suc j) ↦ λ a b e. omega arith
    ]
    | suc (suc i) ↦ λ j a b e. omega arith
  ];
}

fs_file-IsFile : IsFile 0 file_node 2 fs_file
fs_file-IsFile = record {
  node = refl;
  plain = omega arith;
  blocks_apart = two_blocks-IsApart;
  inode_apart = elim [
    | zero ↦ λ lt. omega arith
    | suc zero ↦ λ lt. omega arith
    | suc (suc i) ↦ λ lt. omega arith
  ];
}

-- Four bytes across the end of the first block.
abbrev bytes : List ℕ
bytes = 9 ∷ 8 ∷ 7 ∷ 6 ∷ []

writei-readi_example :
    (fs' : Fs) × (writei devsw0 0 bytes 510 fs_file ≡ ok (some 4, fs'))
    × (readi devsw0 0 510 4 fs' ≡ ok (some bytes, fs'))
    × ((x : ℕ)
        → x < 2 * bsize
        → (x < 510) ⊎ (514 ≤ x)
        → fs'.cell (block_of file_node.addrs x) (x % bsize)
          ≡ fs_file.cell (block_of file_node.addrs x) (x % bsize))
    × (get_elem? fs'.inode 0 ≡ some (record file_node { size = grown file_node 510 4 }))
writei-readi_example =
    writei-readi devsw0 0 510 bytes file_node 2 fs_file fs_file-IsFile (omega arith) (omega arith)
