-- ===== src/Sysproc/Sbrk.antt =====
-- `sys_sbrk` of sysproc.c, through growproc of proc.c to vm.c.
use a.Base.{
  ℕ, suc, ◌+◌, ◌*◌, ◌%◌, ◌^◌, ◌≤◌, ◌<◌, ◌≡◌, refl, ◌≢◌, ◌==◌, false, arith, some, List, modify,
  length, get_elem?, get_elem?-modify_self, ok, ◌>>=◌, pos,
}
use a.Kernel.{Kernel, Proc}
use a.Kalloc.{kern_base, page_size, page_round_up}
use a.Kalloc.FreeList.{IsFree}
use a.Vm.{present}
use a.Vm.Entries.{entry, IsDirectory}
use a.Vm.Grow.{Grown, allocuvm-Grown}
use a.Proc.Grow.{resize, switchuvm, growproc}
use a.Sysproc.{sys_sbrk}
use a.Container.Members.{IsCurrent, myproc-IsCurrent}

-- The running process is `p`, at slot `s`, with a kernel stack and a page directory.
pub record HasSpace (k : Kernel) (s : ℕ) (p : Proc) : Type 0 where
  pub running : IsCurrent k s p
  pub stack : p.kstack ≢ 0
  pub directory : p.pgdir ≢ 0

-- `sbrk` of a positive number of bytes below KERNBASE, with two free pages for each page to map,
-- none of them mapped (the page that an unaligned size ends in may be): it returns the old size,
-- sets the new one, and every page from the old end to the new one is mapped for the user to a page
-- that was free and no longer is; nothing else is mapped otherwise than before.
pub sys_sbrk-Grown :
    (k : Kernel) (s : ℕ) (p : Proc) (n pages : ℕ) (xs : List ℕ)
    → HasSpace k s p
    → p.sz + suc n < kern_base
    → page_round_up (p.sz + suc n) ≡ page_round_up p.sz + pages * page_size
    → pages + pages ≤ length xs
    → IsFree k.kmem xs
    → IsDirectory k.kmem p.pgdir xs
    → ((b : ℕ)
        → page_round_up p.sz ≤ b
        → b < page_round_up (p.sz + suc n)
        → present (entry k.kmem p.pgdir b) ≡ false)
    → (k' : Kernel) × (xs' : List ℕ) × (sys_sbrk (some (pos (suc n))) k ≡ ok (pos p.sz, k'))
      × (get_elem? k'.procs s ≡ some (record p { sz = p.sz + suc n }))
      × Grown k.kmem p.pgdir (page_round_up p.sz) (page_round_up (p.sz + suc n)) xs k'.kmem xs'
unfolding sys_sbrk growproc switchuvm resize
sys_sbrk-Grown k s p n pages xs r low size room free dir absent =
    let (m', xs', run, grown) =
      allocuvm-Grown k.kmem p.pgdir p.sz (p.sz + suc n) pages xs low (omega arith) size room free
        dir absent in
    let me = myproc-IsCurrent k s p r.running in
    let small : (p.sz + suc n) % 2 ^ 32 ≡ p.sz + suc n = omega arith in
    let nonzero : (p.sz + suc n == 0) ≡ false = ground arith in
    let stack : (p.kstack == 0) ≡ false = (let h = r.stack in ground arith) in
    let directory : (p.pgdir == 0) ≡ false = (let h = r.directory in ground arith) in
    (
      record k { kmem = m'; procs = modify k.procs s (λ q. record q { sz = p.sz + suc n }) },
      xs',
      rw me (rw small (rw run (rw (nonzero, ◌>>=◌) (rw stack (rw directory refl))))),
      get_elem?-modify_self k.procs s (λ q. record q { sz = p.sz + suc n }) r.running.at,
      grown,
    )
