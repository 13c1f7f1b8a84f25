-- ===== src/Sysfile/Transfer.antt =====
-- Reading, writing, opening and closing files: file.c and sysfile.c.
use a.Base.{
  ℕ, zero, suc, ◌+◌, ◌-◌, ◌*◌, ◌/◌, ◌%◌, ◌^◌, Bool, true, false, ◌&&◌, ◌||◌, not, Option, none,
  some, List, ◌==◌, if◌then◌else◌, length, set, take, drop, Outcome, ok, panic, fault, ◌>>=◌,
}
use a.Fs.{Fs, bit}
use a.Fs.Icache.{inode_at, ilock, iunlock, Stat, stati}
use a.Fs.Content.{readi, writei, t_dir}
use a.Fs.Dir.{iunlockput}
use a.Fs.Path.{namei}
use a.Files.{fd_none, fd_pipe, fd_inode, filealloc}
use a.Sysfile.{Sys, Parts, file_at, set_file, argfd, fdalloc, close_file}
use a.Sysfile.Names.{open_path}
use a.Sysfile.Create.{create, end_with, t_file}

unfoldable pub filestat : ℕ → Sys → Outcome (Option Stat × Sys)
unfolding file_at ilock iunlock stati
filestat f s = do
  x ← file_at f s
  elim x.type [
    | fd_inode ↦ do
      fs ← ilock x.ip s.fs
      st ← stati x.ip fs
      fs ← iunlock x.ip fs
      ok (some st, record s { fs = fs })
    | fd_pipe ↦ ok (none, s)
    | fd_none ↦ ok (none, s)
  ]

-- `f->off += r`
abbrev pub advance : ℕ → ℕ → Sys → Sys
advance f r s = set_file f (λ x. record x { off = (x.off + r) % 2 ^ 32 }) s

-- `fileread`: what is read, or -1.
unfoldable pub fileread : Parts → ℕ → ℕ → Sys → Outcome (Option (List ℕ) × Sys)
unfolding file_at ilock iunlock readi
fileread parts f n s = do
  x ← file_at f s
  if not x.readable then ok (none, s) else elim x.type [
    | fd_pipe ↦ parts.piperead x.pipe n s
    | fd_inode ↦ do
      fs ← ilock x.ip s.fs
      (r, fs) ← readi parts.devsw x.ip x.off n fs
      fs ← iunlock x.ip fs
      let s = record s { fs = fs }
      ok (r, elim r [ none ↦ s | some got ↦ advance f (length got) s ])
    | fd_none ↦ panic
  ]

-- `int max = ((MAXOPBLOCKS-1-1-2) / 2) * 512`
abbrev pub max_write : ℕ
max_write = (10 - 1 - 1 - 2) / 2 * 512

-- One round of the loop of `filewrite`: what `writei` returned.
unfoldable pub write_part : Parts → ℕ → List ℕ → Sys → Outcome (Option ℕ × Sys)
unfolding file_at ilock iunlock writei
write_part parts f src s = do
  x ← file_at f s
  fs ← parts.begin_op s.fs
  fs ← ilock x.ip fs
  (r, fs) ← writei parts.devsw x.ip src x.off fs
  fs ← iunlock x.ip fs
  fs ← parts.end_op fs
  let s = record s { fs = fs }
  ok (r, elim r [ none ↦ s | some m ↦ advance f m s ])

-- That loop, in at most `k` rounds, for the bytes `src`: whether all of them were written.
unfoldable pub write_loop : Parts → ℕ → ℕ → List ℕ → Sys → Outcome (Bool × Sys)
unfolding write_part
write_loop parts zero f src s = if length src == 0 then ok (true, s) else fault
write_loop parts (suc k) f src s =
    let rest = write_loop parts k f (drop max_write src) in
    let part = take max_write src in
    if length src == 0 then ok (true, s) else (do
      (r, s) ← write_part parts f part s
      elim r [ none ↦ ok (false, s) | some m ↦ if m == length part then rest s else panic ])

unfoldable pub filewrite : Parts → ℕ → List ℕ → Sys → Outcome (Option ℕ × Sys)
unfolding file_at write_loop
filewrite parts f src s = do
  x ← file_at f s
  if not x.writable then ok (none, s) else elim x.type [
    | fd_pipe ↦ parts.pipewrite x.pipe src s
    | fd_inode ↦ write_loop parts (length src) f src s >>= λ (all, s).
        ok (if all then some (length src) else none, s)
    | fd_none ↦ panic
  ]

-- `sys_read`, `sys_write` and `sys_close`, with the arguments that they fetch: the descriptor, and the
-- number of bytes or the bytes of the buffer.
unfoldable pub sys_read : Parts → Option ℕ → Option ℕ → Sys → Outcome (Option (List ℕ) × Sys)
unfolding argfd fileread
sys_read parts fd n s = do
  a ← argfd fd s
  elim a [
    | none ↦ ok (none, s)
    | some (_, f) ↦ elim n [ none ↦ ok (none, s) | some n ↦ fileread parts f n s ]
  ]

unfoldable pub sys_write : Parts → Option ℕ → Option (List ℕ) → Sys → Outcome (Option ℕ × Sys)
unfolding argfd file_at inode_at filewrite
sys_write parts fd src s = do
  a ← argfd fd s
  elim a [
    | none ↦ ok (none, s)
    | some (_, f) ↦ elim src [
      | none ↦ ok (none, s)
      | some src ↦ do
        x ← file_at f s
        n ← inode_at x.ip s.fs
        if n.container_id == 0 || s.container_id == n.container_id
            then filewrite parts f src s
            else ok (none, s)
    ]
  ]

unfoldable pub sys_close : Parts → Option ℕ → Sys → Outcome (Option ℕ × Sys)
unfolding argfd file_at inode_at close_file
sys_close parts fd s = do
  a ← argfd fd s
  elim a [
    | none ↦ ok (none, s)
    | some (fd, f) ↦ do
      x ← file_at f s
      n ← inode_at x.ip s.fs
      if s.container_id == n.container_id
          then close_file parts f (record s { ofile = set s.ofile fd none })
            >>= (λ s. ok (some 0, s))
          else ok (none, s)
  ]

unfoldable pub sys_fstat : Option ℕ → Sys → Outcome (Option Stat × Sys)
unfolding argfd filestat
sys_fstat fd s = do a ← argfd fd s; elim a [ none ↦ ok (none, s) | some (_, f) ↦ filestat f s ]

-- Flags of `open`, by their bits
abbrev pub o_create : ℕ → Bool
o_create omode = not (bit omode 9 == 0)

abbrev pub o_wronly : ℕ → Bool
o_wronly omode = not (bit omode 0 == 0)

abbrev pub o_rdwr : ℕ → Bool
o_rdwr omode = not (bit omode 1 == 0)

-- The inode that `sys_open` gets, locked; `none` where it gives up before it calls `end_op`.
unfoldable pub open_inode : Parts → Sys → List ℕ → ℕ → Fs → Outcome (Option ℕ × Fs)
unfolding create namei inode_at ilock iunlockput
open_inode parts s path omode fs = if o_create omode then create parts s path t_file 0 0 fs else (do
  (found, fs) ← namei parts.devsw s.cwd path parts.stack fs
  elim found [
    | none ↦ ok (none, fs)
    | some (ip, _) ↦ do
      fs ← ilock ip fs
      n ← inode_at ip fs
      if n.type == t_dir && not (omode == 0)
          then iunlockput ip fs >>= (λ fs. ok (none, fs))
          else ok (some ip, fs)
  ])

-- `filealloc` and `fdalloc`, with what `sys_open` does when the second fails.
unfoldable pub open_file : Parts → Sys → Outcome (Option (ℕ × ℕ) × Sys)
unfolding filealloc fdalloc close_file
open_file parts s = do
  (got, t) ← filealloc s.files
  let s = record s { files = t }
  elim got [
    | none ↦ ok (none, s)
    | some f ↦
        let (r, s) = fdalloc f s in
        elim r [
          | none ↦ close_file parts f s >>= λ s. ok (none, s)
          | some fd ↦ ok (some (f, fd), s)
        ]
  ]

unfoldable pub sys_open : Parts → Option (List ℕ) → Option ℕ → Sys → Outcome (Option ℕ × Sys)
unfolding open_path open_inode open_file iunlock iunlockput
sys_open parts none omode s = ok (none, s)
sys_open parts (some path) none s = ok (none, s)
sys_open parts (some path) (some omode) s = do
  fs ← parts.begin_op s.fs
  (got, fs) ← open_inode parts s (open_path s.container_id path) omode fs
  elim got [
    | none ↦ end_with parts none s fs
    | some ip ↦ do
      (r, s) ← open_file parts (record s { fs = fs })
      elim r [
        | none ↦ iunlockput ip s.fs >>= end_with parts none s
        | some (f, fd) ↦ do
          fs ← iunlock ip s.fs
          fs ← parts.end_op fs
          ok (
            some fd,
            set_file f
                (λ x. record x {
                  type = fd_inode;
                  ip = ip;
                  off = 0;
                  readable = not (o_wronly omode);
                  writable = o_wronly omode || o_rdwr omode;
                })
                (record s { fs = fs }),
          )
      ]
  ]
