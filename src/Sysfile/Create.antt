-- ===== src/Sysfile/Create.antt =====
-- sysfile.c: making files and directories, and the current directory.
use a.Base.{
  ℕ, ◌+◌, ◌%◌, ◌^◌, ◌&&◌, not, Option, none, some, List, [], ◌∷◌, ◌==◌, if◌then◌else◌, Outcome, ok,
  panic, ◌>>=◌,
}
use a.Fs.{Fs}
use a.Fs.Icache.{inode_at, set_inode, iupdate, ialloc, ilock, iunlock}
use a.Fs.Content.{Devsw, t_dir, t_dev}
use a.Fs.Dir.{iput, iunlockput, dirlookup, dirlink}
use a.Fs.Path.{namei, nameiparent}
use a.Sysfile.{Sys, Parts}

abbrev pub t_file : ℕ
t_file = 2

-- A change of `ip->nlink`, and `iupdate`.
unfoldable pub relink : ℕ → (ℕ → ℕ) → Fs → Outcome Fs
unfolding iupdate
relink ip f fs = iupdate ip (set_inode ip (λ n. record n { nlink = f n.nlink }) fs)

-- `nlink++` of a `short`
abbrev pub more : ℕ → ℕ
more n = (n + 1) % 2 ^ 16

-- `if(dirlink(...) < 0) panic(...)`
unfoldable pub must_link : Devsw → ℕ → List ℕ → ℕ → Fs → Outcome Fs
unfolding dirlink
must_link devsw dp name inum fs = do
  (r, fs) ← dirlink devsw dp name inum fs
  elim r [ none ↦ panic | some _ ↦ ok fs ]

-- `create`, where the name is there already.
unfoldable pub reuse : ℕ → ℕ → ℕ → Fs → Outcome (Option ℕ × Fs)
unfolding inode_at ilock iunlockput
reuse dp ip type fs = do
  fs ← iunlockput dp fs
  fs ← ilock ip fs
  n ← inode_at ip fs
  if type == t_file && n.type == t_file
      then ok (some ip, fs)
      else iunlockput ip fs >>= λ fs. ok (none, fs)

-- `create`, where it is not. `ialloc` never returns 0.
unfoldable pub make : Parts → Sys → ℕ → List ℕ → ℕ → ℕ → ℕ → Fs → Outcome (Option ℕ × Fs)
unfolding inode_at ialloc ilock iupdate relink must_link iunlockput
make parts s dp name type major minor fs = do
  d ← inode_at dp fs
  (ip, fs) ← ialloc d.dev type fs
  fs ← ilock ip fs
  fs ← iupdate ip (
      set_inode ip
        (λ n. record n { major = major; minor = minor; nlink = 1; container_id = s.container_id })
        fs)
  n ← inode_at ip fs
  fs ←
      if type == t_dir
      then (do
        fs ← relink dp more fs
        fs ← must_link parts.devsw ip (b'.' ∷ 0 ∷ []) n.inum fs
        must_link parts.devsw ip (b'.' ∷ b'.' ∷ 0 ∷ []) d.inum fs)
      else ok fs
  fs ← must_link parts.devsw dp name n.inum fs
  fs ← iunlockput dp fs
  ok (some ip, fs)

-- `create`; `none` is the result 0.
unfoldable pub create : Parts → Sys → List ℕ → ℕ → ℕ → ℕ → Fs → Outcome (Option ℕ × Fs)
unfolding nameiparent ilock dirlookup reuse make
create parts s path type major minor fs = do
  (parent, fs) ← nameiparent parts.devsw s.cwd path parts.stack fs
  elim parent [
    | none ↦ ok (none, fs)
    | some (dp, name) ↦ do
      fs ← ilock dp fs
      (found, fs) ← dirlookup parts.devsw dp name fs
      elim found [
        | some (ip, _) ↦ reuse dp ip type fs
        | none ↦ make parts s dp name type major minor fs
      ]
  ]

-- `end_op(); return r;`
abbrev pub end_with : Parts → Option ℕ → Sys → Fs → Outcome (Option ℕ × Sys)
end_with parts r s fs = parts.end_op fs >>= λ fs. ok (r, record s { fs = fs })

-- What `sys_mkdir` and `sys_mknod` do once the arguments are there.
unfoldable pub make_node : Parts → List ℕ → ℕ → ℕ → ℕ → Sys → Fs → Outcome (Option ℕ × Sys)
unfolding create iunlockput
make_node parts path type major minor s fs = do
  (made, fs) ← create parts s path type major minor fs
  elim made [
    | none ↦ end_with parts none s fs
    | some ip ↦ iunlockput ip fs >>= end_with parts (some 0) s
  ]

unfoldable pub sys_mkdir : Parts → Option (List ℕ) → Sys → Outcome (Option ℕ × Sys)
unfolding make_node
sys_mkdir parts path s = do
  fs ← parts.begin_op s.fs
  elim path [ none ↦ end_with parts none s fs | some path ↦ make_node parts path t_dir 0 0 s fs ]

-- `major` and `minor` are passed on as `short`s.
unfoldable pub sys_mknod :
    Parts → Option (List ℕ) → Option ℕ → Option ℕ → Sys → Outcome (Option ℕ × Sys)
unfolding make_node
sys_mknod parts path major minor s = do
  fs ← parts.begin_op s.fs
  elim path [
    | none ↦ end_with parts none s fs
    | some path ↦ elim major [
      | none ↦ end_with parts none s fs
      | some major ↦ elim minor [
        | none ↦ end_with parts none s fs
        | some minor ↦ make_node parts path t_dev (major % 2 ^ 16) (minor % 2 ^ 16) s fs
      ]
    ]
  ]

unfoldable pub sys_chdir : Parts → Option (List ℕ) → Sys → Outcome (Option ℕ × Sys)
unfolding namei inode_at ilock iunlock iunlockput iput
sys_chdir parts path s = do
  fs ← parts.begin_op s.fs
  elim path [
    | none ↦ end_with parts none s fs
    | some path ↦ do
      (found, fs) ← namei parts.devsw s.cwd path parts.stack fs
      elim found [
        | none ↦ end_with parts none s fs
        | some (ip, _) ↦ do
          fs ← ilock ip fs
          n ← inode_at ip fs
          if not (n.type == t_dir) then iunlockput ip fs >>= end_with parts none s else (do
            fs ← iunlock ip fs
            fs ← iput s.cwd fs
            fs ← parts.end_op fs
            ok (some 0, record s { fs = fs; cwd = ip }))
      ]
  ]
