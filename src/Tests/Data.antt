-- ===== src/Tests/Data.antt =====
-- A small kernel: two free pages, four process slots, three containers.
use a.Base.{ℕ, refl, true, false, List, [], ◌∷◌, arith, ◌==◌, if◌then◌else◌, replicate}
use a.Kernel.{Kernel, Proc, unused, sleeping, running, Container, ContainerState, cwaiting, cunused}
use a.Kalloc.{Kmem}
use a.Kalloc.FreeList.{IsFree}
use a.Proc.Pids.{PidsOk}
use a.Container.Table.{IsTable}

abbrev pub page1 : ℕ
page1 = 0x80400000

abbrev pub page2 : ℕ
page2 = 0x80401000

-- `page2` is handed out first, and its `next` is `page1`.
abbrev pub kmem0 : Kmem
kmem0 = record {
  lock = false;
  use_lock = true;
  freelist = page2;
  word = λ a. if a == page2 then page1 else 0;
  kernel_end = 0x80200000;
}

abbrev pub kmem_empty : Kmem
kmem_empty = record kmem0 { freelist = 0 }

pub kmem0-IsFree : IsFree kmem0 (page2 ∷ page1 ∷ [])
kmem0-IsFree = record {
  chain = omega arith;
  pages = omega arith;
  distinct = omega arith;
  unlocked = refl;
}

pub kmem_empty-IsFree : IsFree kmem_empty []
kmem_empty-IsFree = record { chain = refl; pages = tt; distinct = tt; unlocked = refl }

abbrev pub free_slot : Proc
free_slot = record {
  sz = 0;
  pgdir = 0;
  kstack = 0;
  state = unused;
  pid = 0;
  parent = 0;
  container_id = 0;
  tf = 0;
  context = 0;
  chan = 0;
  killed = false;
  ofile = replicate 16 0;
  cwd = 0;
  name = replicate 16 0;
}

abbrev pub init_proc : Proc
init_proc = record free_slot { sz = 4096; state = running; pid = 1; cwd = 7 }

abbrev pub sleeper : Proc
sleeper = record free_slot { state = sleeping; pid = 2; parent = 1; container_id = 2; chan = 500 }

abbrev pub table : List Proc
table = init_proc ∷ sleeper ∷ free_slot ∷ free_slot ∷ []

abbrev pub container : ℕ → ContainerState → Container
container id s = record {
  container_id = id;
  state = s;
  next_gva = 64;
  page = replicate 2 (record { gva = 0; hva = 0; pid = 0 });
  next = 0;
}

abbrev pub conts0 : List Container
conts0 = container 0 cwaiting ∷ container 1 cunused ∷ container 2 cwaiting ∷ []

abbrev pub kernel0 : Kernel
kernel0 = record {
  ptable_lock = false;
  ctable_lock = false;
  tickslock = false;
  ncli = 0;
  procs = table;
  conts = conts0;
  containers = 0 ∷ 0 ∷ 1 ∷ [];
  nextpid = 3;
  initproc = 1;
  current = 1;
  ticks = 0;
  scheduler_log = false;
  memory_log = true;
  kmem = kmem0;
  console = [];
  trapret = 111;
  forkret = 222;
}

-- The second slot is running.
abbrev pub kernel1 : Kernel
kernel1 = record kernel0 {
  current = 2;
  procs = init_proc ∷ record sleeper { state = running } ∷ free_slot ∷ free_slot ∷ [];
}

pub kernel0-PidsOk : PidsOk kernel0
kernel0-PidsOk = record {
  positive = omega arith;
  below = omega arith;
  unique = (
    (λ _. omega arith),
    ((λ _. omega arith), ((λ z. absurd (z refl)), ((λ z. absurd (z refl)), tt))),
  );
}

pub kernel1-PidsOk : PidsOk kernel1
kernel1-PidsOk = record {
  positive = omega arith;
  below = omega arith;
  unique = (
    (λ _. omega arith),
    ((λ _. omega arith), ((λ z. absurd (z refl)), ((λ z. absurd (z refl)), tt))),
  );
}

pub kernel0-IsTable : IsTable kernel0
kernel0-IsTable = record { numbered = omega arith; flags = refl }
