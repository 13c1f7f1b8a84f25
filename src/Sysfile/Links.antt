-- ===== src/Sysfile/Links.antt =====
-- sysfile.c: linking and unlinking files.
use a.Base.{
  ℕ, zero, suc, ◌+◌, ◌-◌, ◌*◌, ◌%◌, ◌^◌, Bool, true, false, ◌||◌, Option, none, some, List, [], ◌∷◌,
  ltb, leb, ◌==◌, if◌then◌else◌, replicate, Outcome, ok, panic, ◌>>=◌, ℤ, pos, negsuc,
}
use a.Fs.{Fs}
use a.Fs.Icache.{inode_at, ilock, iunlock}
use a.Fs.Content.{Devsw, writei, t_dir}
use a.Fs.Dir.{
  iput, iunlockput, namecmp, dirlookup, dirlink, read_dirent, de_inum, dirents, dirent_size,
}
use a.Fs.Path.{namei, nameiparent}
use a.Sysfile.{Sys, Parts}
use a.Sysfile.Create.{relink, more, end_with}

-- The loop of `isdirempty` from `off` on, in at most `k` rounds.
unfoldable pub empty_loop : Devsw → ℕ → ℕ → ℕ → Fs → Outcome (Bool × Fs)
unfolding inode_at read_dirent
empty_loop devsw zero dp off fs = ok (true, fs)
empty_loop devsw (suc k) dp off fs =
    let rest = empty_loop devsw k dp (off + dirent_size) in
    do
      n ← inode_at dp fs
      if ltb off n.size
          then (do
            (de, fs) ← read_dirent devsw dp off fs
            if de_inum de == 0 then rest fs else ok (false, fs))
          else ok (true, fs)

unfoldable pub isdirempty : Devsw → ℕ → Fs → Outcome (Bool × Fs)
unfolding inode_at empty_loop
isdirempty devsw dp fs = do
  n ← inode_at dp fs
  empty_loop devsw (dirents n.size) dp (2 * dirent_size) fs

-- `nlink--` of a `short`
abbrev pub less : ℕ → ℕ
less n = (n + 2 ^ 16 - 1) % 2 ^ 16

-- The label `bad` of `sys_link`
unfoldable pub link_bad : Parts → ℕ → Sys → Fs → Outcome (Option ℕ × Sys)
unfolding ilock relink iunlockput
link_bad parts ip s fs = do
  fs ← ilock ip fs
  fs ← relink ip less fs
  fs ← iunlockput ip fs
  end_with parts none s fs

-- `sys_link` from `nameiparent` on
unfoldable pub link_into : Parts → List ℕ → ℕ → Sys → Fs → Outcome (Option ℕ × Sys)
unfolding nameiparent inode_at ilock iunlockput iput dirlink link_bad
link_into parts new ip s fs = do
  (parent, fs) ← nameiparent parts.devsw s.cwd new parts.stack fs
  elim parent [
    | none ↦ link_bad parts ip s fs
    | some (dp, name) ↦ do
      fs ← ilock dp fs
      d ← inode_at dp fs
      n ← inode_at ip fs
      (linked, fs) ← if d.dev == n.dev then dirlink parts.devsw dp name n.inum fs else ok (none, fs)
      fs ← iunlockput dp fs
      elim linked [
        | none ↦ link_bad parts ip s fs
        | some _ ↦ iput ip fs >>= end_with parts (some 0) s
      ]
  ]

-- `sys_link`, with both arguments there.
unfoldable pub link_paths : Parts → List ℕ → List ℕ → Sys → Outcome (Option ℕ × Sys)
unfolding namei inode_at ilock iunlock iunlockput relink link_into
link_paths parts old new s = do
  fs ← parts.begin_op s.fs
  (found, fs) ← namei parts.devsw s.cwd old parts.stack fs
  elim found [
    | none ↦ end_with parts none s fs
    | some (ip, _) ↦ do
      fs ← ilock ip fs
      n ← inode_at ip fs
      if n.type == t_dir
          then iunlockput ip fs >>= end_with parts none s
          else (do fs ← relink ip more fs; fs ← iunlock ip fs; link_into parts new ip s fs)
  ]

unfoldable pub sys_link : Parts → Option (List ℕ) → Option (List ℕ) → Sys → Outcome (Option ℕ × Sys)
unfolding link_paths
sys_link parts none new s = ok (none, s)
sys_link parts (some old) none s = ok (none, s)
sys_link parts (some old) (some new) s = link_paths parts old new s

-- The label `bad` of `sys_unlink`
unfoldable pub unlink_bad : Parts → ℕ → Sys → Fs → Outcome (Option ℕ × Sys)
unfolding iunlockput
unlink_bad parts dp s fs = iunlockput dp fs >>= end_with parts none s

-- `sys_unlink` from `memset` on
unfoldable pub unlink_entry : Parts → ℕ → ℕ → ℕ → Sys → Fs → Outcome (Option ℕ × Sys)
unfolding inode_at writei relink iunlockput
unlink_entry parts dp ip off s fs = do
  (r, fs) ← writei parts.devsw dp (replicate dirent_size 0) off fs
  fs ← elim r [ none ↦ panic | some m ↦ if m == dirent_size then ok fs else panic ]
  n ← inode_at ip fs
  fs ← if n.type == t_dir then relink dp less fs else ok fs
  fs ← iunlockput dp fs
  fs ← relink ip less fs
  fs ← iunlockput ip fs
  end_with parts (some 0) s fs

-- `sys_unlink` from `dirlookup` on. A negative `nlink` is a pattern from 2 ^ 15 on.
unfoldable pub unlink_name : Parts → ℕ → List ℕ → Sys → Fs → Outcome (Option ℕ × Sys)
unfolding inode_at ilock iunlockput dirlookup isdirempty unlink_bad unlink_entry
unlink_name parts dp name s fs = do
  (found, fs) ← dirlookup parts.devsw dp name fs
  elim found [
    | none ↦ unlink_bad parts dp s fs
    | some (ip, off) ↦ do
      fs ← ilock ip fs
      n ← inode_at ip fs
      if n.nlink == 0 || leb (2 ^ 15) n.nlink then panic else (do
        (free, fs) ← if n.type == t_dir then isdirempty parts.devsw ip fs else ok (true, fs)
        if free
            then unlink_entry parts dp ip off s fs
            else iunlockput ip fs >>= unlink_bad parts dp s)
  ]

abbrev pub is_zero : ℤ → Bool
is_zero (pos n) = n == 0
is_zero (negsuc n) = false

unfoldable pub sys_unlink : Parts → Option (List ℕ) → Sys → Outcome (Option ℕ × Sys)
unfolding nameiparent ilock unlink_bad unlink_name
sys_unlink parts none s = ok (none, s)
sys_unlink parts (some path) s = do
  fs ← parts.begin_op s.fs
  (parent, fs) ← nameiparent parts.devsw s.cwd path parts.stack fs
  elim parent [
    | none ↦ end_with parts none s fs
    | some (dp, name) ↦ do
      fs ← ilock dp fs
      a ← namecmp name (b'.' ∷ 0 ∷ [])
      b ← if is_zero a then ok a else namecmp name (b'.' ∷ b'.' ∷ 0 ∷ [])
      if is_zero b then unlink_bad parts dp s fs else unlink_name parts dp name s fs
  ]
