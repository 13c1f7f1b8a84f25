-- ===== src/Sysfile.antt =====
-- sysfile.c: the state and the calls that the system calls on files use, and file descriptors. An
-- argument that `argint`, `argptr` or `argstr` fetches is passed as it was fetched, `none` for -1.
pub mod Names
pub mod Create
pub mod Links
pub mod Transfer
pub mod Descriptors
pub mod Isolation
use a.Base.{
  ℕ, zero, suc, ◌+◌, ◌-◌, ◌*◌, ◌/◌, ◌%◌, ◌^◌, ◌≤◌, ◌<◌, min, ◌≡◌, refl, sym, ap, ap₂, ◌∙◌, fun_ext,
  ◌≢◌, ◌↔◌, ◌⊎◌, inl, inr, Bool, true, false, ◌&&◌, ◌||◌, not, Option, none, some, List, [], ◌∷◌,
  ◌++◌, map, arith, ltb, leb, ◌==◌, if◌then◌else◌, ==_iff, Bool-cases, Option-cases, length,
  get_elem?, set, take, drop, replicate, modify, All, Outcome, ok, panic, fault, ◌>>=◌, ℤ, pos,
  negsuc, minus_one,
}
use a.Fs.{Fs}
use a.Life.Leave.{nofile}
use a.Fs.Content.{Devsw}
use a.Fs.Dir.{iput}
use a.Files.{
  File, Ftable, LastCall, no_call, call_pipeclose, call_iput, filealloc, filedup, fileclose,
}

-- What a system call on files works on: the file system, the table of files, and of the current process
-- `ofile`, `cwd` and `containerID`.
pub record Sys : Type 0 where
  pub fs : Fs
  pub files : Ftable
  pub ofile : List (Option ℕ)
  pub cwd : ℕ
  pub container_id : ℕ

-- The calls of other parts: the drivers, the log, pipes. `stack` is what a fresh `char name[DIRSIZ]` holds.
pub record Parts : Type 0 where
  pub devsw : Devsw
  pub begin_op : Fs → Outcome Fs
  pub end_op : Fs → Outcome Fs
  pub pipeclose : ℕ → Bool → Sys → Outcome Sys
  pub piperead : ℕ → ℕ → Sys → Outcome (Option (List ℕ) × Sys)
  pub pipewrite : ℕ → List ℕ → Sys → Outcome (Option ℕ × Sys)
  pub stack : List ℕ

-- `f->...`
unfoldable pub file_at : ℕ → Sys → Outcome File
file_at f s = elim (get_elem? s.files.file f) [ none ↦ fault | some x ↦ ok x ]

abbrev pub set_file : ℕ → (File → File) → Sys → Sys
set_file f g s = record s { files = record s.files { file = modify s.files.file f g } }

-- `argfd`: the descriptor and the file.
unfoldable pub argfd : Option ℕ → Sys → Outcome (Option (ℕ × ℕ))
argfd none s = ok none
argfd (some fd) s = if leb nofile fd then ok none else elim (get_elem? s.ofile fd) [
  | none ↦ fault
  | some none ↦ ok none
  | some (some f) ↦ ok (some (fd, f))
]

-- The loop of `fdalloc`, over the entries from `fd` on.
unfoldable pub fd_loop : List (Option ℕ) → ℕ → Option ℕ
fd_loop [] fd = none
fd_loop (none ∷ os) fd = some fd
fd_loop (some f ∷ os) fd = fd_loop os (fd + 1)

unfoldable pub fdalloc : ℕ → Sys → Option ℕ × Sys
unfolding fd_loop
fdalloc f s = elim (fd_loop s.ofile 0) [
  | some fd ↦ (some fd, record s { ofile = set s.ofile fd (some f) })
  | none ↦ (none, s)
]

unfoldable pub sys_dup : Option ℕ → Sys → Outcome (Option ℕ × Sys)
unfolding argfd fdalloc filedup
sys_dup arg s = do
  a ← argfd arg s
  elim a [
    | none ↦ ok (none, s)
    | some (_, f) ↦
        let (r, s) = fdalloc f s in
        elim r [
          | none ↦ ok (none, s)
          | some fd ↦ filedup f s.files >>= λ t. ok (some fd, record s { files = t })
        ]
  ]

-- `fileclose`, with the calls it ends with.
unfoldable pub close_file : Parts → ℕ → Sys → Outcome Sys
unfolding fileclose iput
close_file parts f s = do
  (last, t) ← fileclose f s.files
  let s = record s { files = t }
  elim last [
    | no_call ↦ ok s
    | call_pipeclose p w ↦ parts.pipeclose p w s
    | call_iput ip ↦ do
      fs ← parts.begin_op s.fs
      fs ← iput ip fs
      fs ← parts.end_op fs
      ok (record s { fs = fs })
  ]
