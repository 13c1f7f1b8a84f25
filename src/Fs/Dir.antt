-- ===== src/Fs/Dir.antt =====
-- fs.c: giving back an inode, and directories. The cells of an entry are its number at 0 and its name
-- from 2 on.
use a.Base.{
  ℕ, zero, suc, ◌+◌, ◌-◌, ◌/◌, false, ◌&&◌, Option, none, some, List, ◌∷◌, ltb, ◌==◌, if◌then◌else◌,
  length, drop, replicate, Outcome, ok, panic, fault, ◌>>=◌, ℤ, pos, negsuc, get_or,
}
use a.Fs.{Fs}
use a.Fs.Icache.{
  inode_at, set_inode, iupdate, acquire, release, acquiresleep, releasesleep, iunlock, iget,
}
use a.Fs.Content.{Devsw, itrunc, readi, writei, t_dir}
use a.Str.{strncmp, strncpy}

-- `if(ip->valid && ip->nlink == 0) {...}`
unfoldable pub free_unlinked : ℕ → Fs → Outcome Fs
unfolding inode_at acquire release itrunc iupdate
free_unlinked ip fs = do
  n ← inode_at ip fs
  if n.valid && n.nlink == 0
      then (do
        fs ← acquire fs
        n ← inode_at ip fs
        fs ← release fs
        if n.ref == 1
            then (do
              fs ← itrunc ip fs
              fs ← iupdate ip (set_inode ip (λ n. record n { type = 0 }) fs)
              ok (set_inode ip (λ n. record n { valid = false }) fs))
            else ok fs)
      else ok fs

-- `iput`. A reference count below zero is a fault.
unfoldable pub iput : ℕ → Fs → Outcome Fs
unfolding inode_at acquire release acquiresleep releasesleep free_unlinked
iput ip fs = do
  fs ← acquiresleep ip fs
  fs ← free_unlinked ip fs
  fs ← releasesleep ip fs
  fs ← acquire fs
  n ← inode_at ip fs
  if n.ref == 0 then fault else release (set_inode ip (λ n. record n { ref = n.ref - 1 }) fs)

unfoldable pub iunlockput : ℕ → Fs → Outcome Fs
unfolding iunlock iput
iunlockput ip fs = iunlock ip fs >>= iput ip

abbrev pub dirsiz : ℕ
dirsiz = 14

-- `sizeof(struct dirent)`
abbrev pub dirent_size : ℕ
dirent_size = 16

abbrev pub namecmp : List ℕ → List ℕ → Outcome ℤ
unfolding strncmp
namecmp s t = strncmp s t dirsiz

-- `readi(dp, (char*)&de, off, sizeof(de))`, with the panic on a short read.
unfoldable pub read_dirent : Devsw → ℕ → ℕ → Fs → Outcome (List ℕ × Fs)
unfolding readi
read_dirent devsw dp off fs = do
  (r, fs) ← readi devsw dp off dirent_size fs
  elim r [ none ↦ panic | some de ↦ if length de == dirent_size then ok (de, fs) else panic ]

-- `de.inum` and `de.name`
abbrev pub de_inum : List ℕ → ℕ
de_inum de = get_or de 0 0

abbrev pub de_name : List ℕ → List ℕ
de_name de = drop 2 de

-- The rounds of a loop over the entries of a directory of that size.
abbrev pub dirents : ℕ → ℕ
dirents size = (size + dirent_size - 1) / dirent_size

-- The loop of `dirlookup` from `off` on, in at most `k` rounds: the inode and the offset.
unfoldable pub lookup_loop : Devsw → ℕ → ℕ → List ℕ → ℕ → Fs → Outcome (Option (ℕ × ℕ) × Fs)
unfolding inode_at read_dirent iget
lookup_loop devsw zero dp name off fs = ok (none, fs)
lookup_loop devsw (suc k) dp name off fs =
    let rest = lookup_loop devsw k dp name (off + dirent_size) in
    do
      n ← inode_at dp fs
      if ltb off n.size
          then (do
            (de, fs) ← read_dirent devsw dp off fs
            if de_inum de == 0 then rest fs else (do
              c ← namecmp name (de_name de)
              elim c [
                | pos zero ↦ iget n.dev (de_inum de) fs >>= λ (ip, fs). ok (some (ip, off), fs)
                | pos (suc _) ↦ rest fs
                | negsuc _ ↦ rest fs
              ]))
          else ok (none, fs)

unfoldable pub dirlookup : Devsw → ℕ → List ℕ → Fs → Outcome (Option (ℕ × ℕ) × Fs)
unfolding inode_at lookup_loop
dirlookup devsw dp name fs = do
  n ← inode_at dp fs
  if n.type == t_dir then lookup_loop devsw (dirents n.size) dp name 0 fs else panic

-- The loop of `dirlink`: the offset of an empty entry, or that after the last one.
unfoldable pub entry_loop : Devsw → ℕ → ℕ → ℕ → Fs → Outcome (ℕ × Fs)
unfolding inode_at read_dirent
entry_loop devsw zero dp off fs = ok (off, fs)
entry_loop devsw (suc k) dp off fs =
    let rest = entry_loop devsw k dp (off + dirent_size) in
    do
      n ← inode_at dp fs
      if ltb off n.size
          then (do
            (de, fs) ← read_dirent devsw dp off fs
            if de_inum de == 0 then ok (off, fs) else rest fs)
          else ok (off, fs)

-- The end of `dirlink`, which writes the entry at `off`. All of `de` is written over, so that it does
-- not matter what it holds before.
unfoldable pub write_dirent : Devsw → ℕ → List ℕ → ℕ → ℕ → Fs → Outcome (Option ℕ × Fs)
unfolding writei strncpy
write_dirent devsw dp name inum off fs = do
  de ← strncpy (replicate dirsiz 0) name dirsiz
  (r, fs) ← writei devsw dp (inum ∷ 0 ∷ de) off fs
  elim r [ none ↦ panic | some m ↦ if m == dirent_size then ok (some 0, fs) else panic ]

-- `dirlink`; `none` is the result -1.
unfoldable pub dirlink : Devsw → ℕ → List ℕ → ℕ → Fs → Outcome (Option ℕ × Fs)
unfolding inode_at dirlookup iput entry_loop write_dirent
dirlink devsw dp name inum fs = do
  (found, fs) ← dirlookup devsw dp name fs
  elim found [
    | some (ip, _) ↦ iput ip fs >>= λ fs. ok (none, fs)
    | none ↦ do
      n ← inode_at dp fs
      (off, fs) ← entry_loop devsw (dirents n.size) dp 0 fs
      write_dirent devsw dp name inum off fs
  ]
