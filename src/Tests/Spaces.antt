-- ===== src/Tests/Spaces.antt =====
-- Runs of the page table code of vm.c, and instances of its theorems, on a memory with an empty page
-- directory and three free pages.
use a.Base.{
  ℤ, pos, negsuc, minus_one, ◌>>=◌, some, get_elem?, ℕ, ◌+◌, ◌-◌, ◌*◌, ◌%◌, ◌≤◌, ◌<◌, ◌≡◌, refl,
  true, false, ◌==◌, if◌then◌else◌, arith, Outcome, ok, fault, ◌>>=◌, pos, List, [], ◌∷◌,
}
use a.Kernel.{Kernel, Proc, myproc}
use a.Proc.Grow.{growproc, resize, switchuvm}
use a.Sysproc.{sys_sbrk}
use a.Sysproc.Sbrk.{sys_sbrk-Grown}
use a.Tests.Data.{kernel0, init_proc}
use a.Kalloc.{Kmem, kalloc, page_size, page_round_up}
use a.Kalloc.FreeList.{IsFree}
use a.Vm.{walkpgdir, p2v, pdx, mappages, uva2ka, present}
use a.Vm.Space.{deallocuvm, allocuvm, copyuvm}
use a.Vm.Entries.{entry, entry-absent, has_table, IsDirectory}
use a.Vm.Walk.{Spent, Walked, walkpgdir-Walked}
use a.Vm.Round.{Mapped}
use a.Vm.Map.{mappages-Mapped}
use a.Vm.Translate.{uva2ka_lem, kernel_address, mappages-uva2ka}
use a.Vm.Returns.{Ends}
use a.Vm.Build.{copyuvm-Ends, allocuvm-Ends}
use a.Vm.Grow.{Grown}

abbrev directory : ℕ
directory = 0x80400000

abbrev memory : ℕ → ℕ
memory a = if a == 0x80401000 then 0x80402000 else if a == 0x80402000 then 0x80403000 else 0

abbrev start : Kmem
start = record {
  lock = false;
  use_lock = true;
  freelist = 0x80401000;
  word = memory;
  kernel_end = 0x80110000;
}

abbrev pages : List ℕ
pages = 0x80401000 ∷ 0x80402000 ∷ 0x80403000 ∷ []

start-IsFree : IsFree start pages
start-IsFree = record {
  chain = (refl, omega arith, (refl, omega arith, (refl, omega arith, refl)));
  pages = (
    record { aligned = refl; above = omega arith; below = omega arith },
    (
      record { aligned = refl; above = omega arith; below = omega arith },
      (record { aligned = refl; above = omega arith; below = omega arith }, tt),
    ),
  );
  distinct = ((omega arith, (omega arith, tt)), ((omega arith, tt), (tt, tt)));
  unlocked = refl;
}

blank : (i : ℕ) → i < 1024 → memory (directory + 4 * i) ≡ 0
blank i lt = ground arith

no_table : (i : ℕ) → i < 1024 → has_table start directory i ≡ false
no_table i lt = rw (blank i lt) refl

start-IsDirectory : IsDirectory start directory pages
start-IsDirectory = record {
  aligned = refl;
  used = (omega arith, (omega arith, (omega arith, tt)));
  bounded = (omega arith, (omega arith, (omega arith, tt)));
  apart = λ i lt has. absurd (let e = no_table i lt in cc);
  distinct = λ i j li lj ne hi hj. absurd (let e = no_table i li in cc);
}

unmapped : (b : ℕ) → present (entry start directory b) ≡ false
unmapped b = rw (entry-absent start directory b (no_table (pdx b) (omega arith))) refl

-- A page at 0x3000, mapped to the frame at 0x5000: the table comes from the free list.
translated : ℕ → ℕ → Outcome ℕ
unfolding mappages uva2ka
translated perm va = do
  (r, m) ← mappages directory 0x3000 4096 0x5000 perm start
  (k, m) ← uva2ka directory va m
  ok k

translated_user : translated 6 0x3abc ≡ ok 0x80005000
unfolding translated kalloc
translated_user = refl

translated_kernel : translated 2 0x3abc ≡ ok 0
unfolding translated kalloc
translated_kernel = refl

translated_null : translated 6 0x400000 ≡ fault
unfolding translated kalloc
translated_null = refl

walkpgdir-Walked_example :
    (pte : ℕ) × (m' : Kmem) × (xs' : List ℕ) × Walked start directory 0x3abc pages pte m' xs'
walkpgdir-Walked_example =
    walkpgdir-Walked start directory 0x3abc pages start-IsFree start-IsDirectory

mappages-Mapped_example :
    (m' : Kmem) × (xs' : List ℕ) × (mappages directory 0x3000 (2 * page_size) 0x5000 6 start
      ≡ ok (pos 0, m'))
    × Spent pages xs' 2
    × Mapped start directory 0x3000 (0x3000 + 2 * page_size) 0x5000 6 m' xs'
mappages-Mapped_example =
    mappages-Mapped start directory 0x3000 1 0x5000 6 pages refl (omega arith) refl (omega arith)
      (omega arith) (omega arith) start-IsFree start-IsDirectory (λ b lo hi. unmapped b)

mappages-uva2ka_example :
    (m' : Kmem) × (mappages directory 0x3000 (2 * page_size) 0x5000 6 start ≡ ok (pos 0, m'))
    × ((b : ℕ)
        → 0x3000 ≤ b
        → b < 0x3000 + 2 * page_size
        → uva2ka directory b m' ≡ ok (p2v (0x5000 + (b - b % page_size - 0x3000)), m'))
mappages-uva2ka_example =
    mappages-uva2ka start directory 0x3000 1 0x5000 6 pages refl (omega arith) refl (omega arith)
      (omega arith) refl (omega arith) start-IsFree start-IsDirectory (λ b lo hi. unmapped b)

uva2ka_lem_example : uva2ka directory 0x3abc start ≡ (
    if has_table start directory (pdx 0x3abc)
    then ok (kernel_address (entry start directory 0x3abc), start)
    else fault)
uva2ka_lem_example = uva2ka_lem start directory 0x3abc pages start-IsDirectory

allocuvm-Ends_example : Ends (allocuvm directory 0 0x9000 start)
allocuvm-Ends_example = allocuvm-Ends directory 0 0x9000 start

copyuvm-Ends_example : Ends (copyuvm 0x80108000 directory 0x3000 start)
copyuvm-Ends_example = copyuvm-Ends 0x80108000 directory 0x3000 start (omega arith) (omega arith)

abbrev grower : Proc
grower = record init_proc { sz = 0x2f00; pgdir = directory; kstack = 0x80300000 }

abbrev small : Kernel
small = record kernel0 { current = 1; procs = grower ∷ []; kmem = start }

sys_sbrk-Grown_example :
    (k' : Kernel) × (xs' : List ℕ) × (sys_sbrk (some (pos 0x800)) small ≡ ok (pos 0x2f00, k'))
    × (get_elem? k'.procs 0 ≡ some (record grower { sz = 0x3700 }))
    × Grown start directory (page_round_up 0x2f00) (page_round_up 0x3700) pages k'.kmem xs'
sys_sbrk-Grown_example =
    sys_sbrk-Grown small 0 grower 0x7ff 1 pages
      (record {
        running = record { current = refl; at = refl; live = omega arith };
        stack = omega arith;
        directory = omega arith;
      })
      (omega arith) refl (omega arith) start-IsFree start-IsDirectory (λ b lo hi. unmapped b)

-- Giving back all memory, or more than there is.
shrunk : ℕ → Outcome ℤ
unfolding sys_sbrk
shrunk n = do (r, k) ← sys_sbrk (some (negsuc n)) small; ok r

shrunk_all : shrunk 0x2eff ≡ ok minus_one
unfolding shrunk myproc growproc resize deallocuvm walkpgdir
shrunk_all = refl

shrunk_more : shrunk 0x4fff ≡ ok (pos 0x2f00)
unfolding shrunk myproc growproc resize deallocuvm switchuvm
shrunk_more = refl
