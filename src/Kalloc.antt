-- ===== src/Kalloc.antt =====
-- kalloc.c: the allocator of physical pages, a free list threaded through the free pages.
pub mod FreeList
pub mod Range
use a.Base.{
  ℕ, zero, suc, ◌+◌, ◌-◌, ◌/◌, ◌%◌, ◌^◌, Bool, true, false, ◌&&◌, ◌||◌, not, ◌==◌, ltb, leb,
  if◌then◌else◌, Outcome, ok, panic, fault, ◌>>=◌,
}

abbrev pub page_size : ℕ
page_size = 4096

abbrev pub kern_base : ℕ
kern_base = 0x80000000

abbrev pub phys_stop : ℕ
phys_stop = 0xe000000

-- V2P, an unsigned 32-bit subtraction.
abbrev pub v2p : ℕ → ℕ
v2p v = (v + 2 ^ 32 - kern_base) % 2 ^ 32

-- `kmem`, with the memory that its list is threaded through. `word a` is the 32-bit word at `a`, which
-- is the `next` of a `struct run` at `a`; `kernel_end` is the linker's symbol `end`; `lock` says
-- whether this CPU holds `kmem.lock`.
pub record Kmem : Type 0 where
  pub lock : Bool
  pub use_lock : Bool
  pub freelist : ℕ
  pub word : ℕ → ℕ
  pub kernel_end : ℕ

unfoldable pub acquire : Kmem → Outcome Kmem
acquire m = if m.lock then panic else ok (record m { lock = true })

unfoldable pub release : Kmem → Outcome Kmem
release m = if m.lock then ok (record m { lock = false }) else panic

unfoldable pub acquire_if_used : Kmem → Outcome Kmem
unfolding acquire
acquire_if_used m = if m.use_lock then acquire m else ok m

unfoldable pub release_if_used : Kmem → Outcome Kmem
unfolding release
release_if_used m = if m.use_lock then release m else ok m

-- `memset(v, 1, PGSIZE)`: every word of the page becomes 0x01010101.
unfoldable pub fill : (ℕ → ℕ) → ℕ → ℕ → ℕ
fill word v a = if leb v a && ltb a (v + page_size) then 0x01010101 else word a

unfoldable pub store : (ℕ → ℕ) → ℕ → ℕ → ℕ → ℕ
store word p x a = if a == p then x else word a

abbrev pub bad_page : Kmem → ℕ → Bool
bad_page m v = not (v % page_size == 0) || ltb v m.kernel_end || leb phys_stop (v2p v)

unfoldable pub kfree : ℕ → Kmem → Outcome Kmem
unfolding acquire_if_used release_if_used
kfree v m = if bad_page m v then panic else do
  m ← acquire_if_used (record m { word = fill m.word v })
  release_if_used (record m { word = store m.word v m.freelist; freelist = v })

unfoldable pub kalloc : Kmem → Outcome (ℕ × Kmem)
unfolding acquire_if_used release_if_used
kalloc m = do
  m ← acquire_if_used m
  let r = m.freelist
  m' ← release_if_used (if r == 0 then m else record m { freelist = m.word r })
  ok (r, m')

-- PGROUNDUP, on 32-bit unsigned numbers: masking by ~(PGSIZE-1) drops the remainder.
abbrev pub page_round_up : ℕ → ℕ
page_round_up sz = let up = (sz + page_size - 1) % 2 ^ 32 in up - up % page_size

-- The loop of `freerange` on fuel; `fault` if the fuel runs out.
free_loop : ℕ → ℕ → ℕ → Kmem → Outcome Kmem
free_loop zero p vend m = fault
free_loop (suc n) p vend m = elim (leb (p + page_size) vend) [
  | true ↦ kfree p m >>= free_loop n (p + page_size) vend
  | false ↦ ok m
]

-- `vend / PGSIZE + 1` rounds are more than the loop can make.
unfoldable pub freerange : ℕ → ℕ → Kmem → Outcome Kmem
unfolding free_loop
freerange vstart vend m = free_loop (vend / page_size + 1) (page_round_up vstart) vend m

unfoldable pub kinit1 : ℕ → ℕ → Kmem → Outcome Kmem
unfolding freerange
kinit1 vstart vend m = freerange vstart vend (record m { lock = false; use_lock = false })

unfoldable pub kinit2 : ℕ → ℕ → Kmem → Outcome Kmem
unfolding freerange
kinit2 vstart vend m = do m ← freerange vstart vend m; ok (record m { use_lock = true })
