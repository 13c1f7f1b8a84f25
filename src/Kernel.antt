-- ===== src/Kernel.antt =====
-- The state that proc.c and sysproc.c work on: the process table, the container table, and the
-- globals of syscall.c, with the structures of proc.h.
-- A pointer into `ptable.proc` is a number: slot `i` has the pointer `i + 1`, and 0 is null. Other
-- addresses, such as sleep channels and page tables, are numbers that are only compared.
use a.Base.{
  ℕ, zero, suc, ◌+◌, ◌-◌, Bool, true, false, none, some, List, [], ◌∷◌, ◌++◌, if◌then◌else◌,
  get_elem?, Outcome, ok, panic, fault, ◌>>=◌,
}
use a.Kalloc.{Kmem}

pub data ProcState : Type 0 where
  unused embryo sleeping runnable running zombie : ProcState

abbrev pub is_unused : ProcState → Bool
is_unused s = elim s [ unused ↦ true | _ ↦ false ]

abbrev pub is_sleeping : ProcState → Bool
is_sleeping s = elim s [ sleeping ↦ true | _ ↦ false ]

abbrev pub is_runnable : ProcState → Bool
is_runnable s = elim s [ runnable ↦ true | _ ↦ false ]

abbrev pub is_running : ProcState → Bool
is_running s = elim s [ running ↦ true | _ ↦ false ]

abbrev pub is_zombie : ProcState → Bool
is_zombie s = elim s [ zombie ↦ true | _ ↦ false ]

-- `struct proc`. The name is the bytes of the array; `container_id` is a C `int`, kept as its 32-bit
-- pattern, since system calls store any value in it.
pub record Proc : Type 0 where
  pub sz : ℕ
  pub pgdir : ℕ
  pub kstack : ℕ
  pub state : ProcState
  pub pid : ℕ
  pub parent : ℕ
  pub container_id : ℕ
  pub tf : ℕ
  pub context : ℕ
  pub chan : ℕ
  pub killed : Bool
  pub ofile : List ℕ
  pub cwd : ℕ
  pub name : List ℕ

pub data ContainerState : Type 0 where
  crunning cwaiting cunused : ContainerState

abbrev pub is_waiting : ContainerState → Bool
is_waiting s = elim s [ cwaiting ↦ true | _ ↦ false ]

pub record PgElement : Type 0 where
  pub gva : ℕ
  pub hva : ℕ
  pub pid : ℕ

-- `struct container`, its `pgTable` spread out: `page` is the array, of 100
-- entries, and `next` its fill mark.
pub record Container : Type 0 where
  pub container_id : ℕ
  pub state : ContainerState
  pub next_gva : ℕ
  pub page : List PgElement
  pub next : ℕ

-- What `cprintf` prints, a constructor for each message.
pub data Line : Type 0 where
  ps_line : (pid : ℕ) (name : List ℕ) (container_id : ℕ) → Line
  present_line : (pid container_id : ℕ) → Line
  added_line : (pid container_id : ℕ) → Line
  mapping_line : (gva hva : ℕ) → Line
  pid_line : ℕ → Line
  no_container_line : Line
  non_existent_line : Line
  scheduling_line : (container_id pid : ℕ) → Line

-- The kernel as one CPU sees it. A lock field says whether this CPU holds the lock, and `ncli` counts
-- the locks held; `current` is `mycpu()->proc`, `containers` the array of flags of syscall.c, and
-- `trapret` and `forkret` are the addresses of that code.
pub record Kernel : Type 0 where
  pub ptable_lock : Bool
  pub ctable_lock : Bool
  pub tickslock : Bool
  pub ncli : ℕ
  pub procs : List Proc
  pub conts : List Container
  pub containers : List ℕ
  pub nextpid : ℕ
  pub initproc : ℕ
  pub current : ℕ
  pub ticks : ℕ
  pub scheduler_log : Bool
  pub memory_log : Bool
  pub kmem : Kmem
  pub console : List Line
  pub trapret : ℕ
  pub forkret : ℕ

abbrev pub proc_ptr : ℕ → ℕ
proc_ptr i = i + 1

abbrev pub print : Line → Kernel → Kernel
print l k = record k { console = k.console ++ (l ∷ []) }

unfoldable pub acquire_ptable : Kernel → Outcome Kernel
acquire_ptable k =
    if k.ptable_lock then panic else ok (record k { ptable_lock = true; ncli = k.ncli + 1 })

unfoldable pub release_ptable : Kernel → Outcome Kernel
release_ptable k =
    if k.ptable_lock then ok (record k { ptable_lock = false; ncli = k.ncli - 1 }) else panic

unfoldable pub acquire_ctable : Kernel → Outcome Kernel
acquire_ctable k =
    if k.ctable_lock then panic else ok (record k { ctable_lock = true; ncli = k.ncli + 1 })

unfoldable pub release_ctable : Kernel → Outcome Kernel
release_ctable k =
    if k.ctable_lock then ok (record k { ctable_lock = false; ncli = k.ncli - 1 }) else panic

unfoldable pub acquire_ticks : Kernel → Outcome Kernel
acquire_ticks k =
    if k.tickslock then panic else ok (record k { tickslock = true; ncli = k.ncli + 1 })

unfoldable pub release_ticks : Kernel → Outcome Kernel
release_ticks k =
    if k.tickslock then ok (record k { tickslock = false; ncli = k.ncli - 1 }) else panic

-- An array access, a fault out of range.
abbrev pub access {ℓ} : {A : Type ℓ} → List A → ℕ → Outcome A
access xs i = elim (get_elem? xs i) [ none ↦ fault | some a ↦ ok a ]

-- `myproc()`, dereferenced: the slot of the running process, and what stands there.
unfoldable pub myproc : Kernel → Outcome (ℕ × Proc)
myproc k = elim k.current [ zero ↦ fault | suc i ↦ access k.procs i >>= λ p. ok (i, p) ]
