-- ===== src/Files.antt =====
-- file.c: the table of open files and its reference counts.
pub mod Refs
use a.Base.{
  ℕ, zero, suc, ◌+◌, ◌-◌, ◌*◌, ◌/◌, ◌%◌, ◌^◌, ◌≤◌, ◌<◌, min, ◌≡◌, refl, sym, ap, ap₂, ◌∙◌, fun_ext,
  ◌≢◌, ◌↔◌, ◌⊎◌, inl, inr, Bool, true, false, ◌&&◌, ◌||◌, not, Option, none, some, List, [], ◌∷◌,
  ◌++◌, map, arith, ltb, leb, ◌==◌, if◌then◌else◌, ==_iff, Bool-cases, Option-cases, length,
  get_elem?, set, take, drop, replicate, modify, All, Outcome, ok, panic, fault, ◌>>=◌, ℤ, pos,
  negsuc, minus_one,
}

pub data FileType : Type 0 where
  fd_none fd_pipe fd_inode : FileType

-- `struct file`; `pipe` and `ip` are pointers, as numbers.
pub record File : Type 0 where
  pub type : FileType
  pub ref : ℕ
  pub readable : Bool
  pub writable : Bool
  pub pipe : ℕ
  pub ip : ℕ
  pub off : ℕ

-- `ftable`. A file pointer is the file's place in the array.
pub record Ftable : Type 0 where
  pub lock : Bool
  pub file : List File

unfoldable pub acquire : Ftable → Outcome Ftable
acquire t = if t.lock then panic else ok (record t { lock = true })

unfoldable pub release : Ftable → Outcome Ftable
release t = if t.lock then ok (record t { lock = false }) else panic

-- The loop of `filealloc`, from the file at place `i` on.
unfoldable pub alloc_loop : List File → ℕ → Option ℕ
alloc_loop [] i = none
alloc_loop (f ∷ fs) i = if f.ref == 0 then some i else alloc_loop fs (i + 1)

unfoldable pub filealloc : Ftable → Outcome (Option ℕ × Ftable)
filealloc t = do
  t ← acquire t
  elim (alloc_loop t.file 0) [
    | some i ↦ release (record t { file = modify t.file i (λ f. record f { ref = 1 }) }) >>= λ t.
        ok (some i, t)
    | none ↦ release t >>= λ t. ok (none, t)
  ]

unfoldable pub filedup : ℕ → Ftable → Outcome Ftable
filedup i t = do
  t ← acquire t
  f ← elim (get_elem? t.file i) [ none ↦ fault | some f ↦ ok f ]
  if ltb f.ref 1
      then panic
      else release (record t { file = modify t.file i (λ f. record f { ref = f.ref + 1 }) })

-- The calls that `fileclose` ends with, on its copy of the file: `pipeclose(pipe, writable)`, or
-- `begin_op(); iput(ip); end_op()`.
pub data LastCall : Type 0 where
  no_call : LastCall
  call_pipeclose : (pipe : ℕ) (writable : Bool) → LastCall
  call_iput : (ip : ℕ) → LastCall

abbrev pub last_call : File → LastCall
last_call f = elim f.type [
  | fd_pipe ↦ call_pipeclose f.pipe f.writable
  | fd_inode ↦ call_iput f.ip
  | fd_none ↦ no_call
]

unfoldable pub fileclose : ℕ → Ftable → Outcome (LastCall × Ftable)
fileclose i t = do
  t ← acquire t
  f ← elim (get_elem? t.file i) [ none ↦ fault | some f ↦ ok f ]
  if ltb f.ref 1
      then panic
      else if ltb 0 (f.ref - 1)
      then (release (record t { file = modify t.file i (λ f. record f { ref = f.ref - 1 }) })
          >>= (λ t. ok (no_call, t)))
      else (release
            (record t { file = modify t.file i (λ f. record f { ref = 0; type = fd_none }) })
          >>= (λ t. ok (last_call f, t)))
