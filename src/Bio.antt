-- ===== src/Bio.antt =====
-- bio.c: the cache of disk blocks. The buffers stand in the order of the list of `bcache`, from `head.next`,
-- the one used last, to `head.prev`; `id` is the buffer's pointer.
pub mod Blocks
use a.Base.{
  ℕ, zero, suc, ◌+◌, ◌-◌, ◌*◌, ◌/◌, ◌%◌, ◌^◌, ◌≤◌, ◌<◌, min, ◌≡◌, refl, sym, ap, ap₂, ◌∙◌, fun_ext,
  ◌≢◌, ◌↔◌, ◌⊎◌, inl, inr, Bool, true, false, ◌&&◌, ◌||◌, not, Option, none, some, List, [], ◌∷◌,
  ◌++◌, map, arith, ltb, leb, ◌==◌, if◌then◌else◌, ==_iff, Bool-cases, Option-cases, length,
  get_elem?, set, take, drop, replicate, modify, All, Outcome, ok, panic, fault, ◌>>=◌, ℤ, pos,
  negsuc, minus_one, subst,
}

-- `struct buf`, without the data; `valid` and `dirty` are its flags, and `locked` says whether any process
-- holds its sleep lock.
pub record Buf : Type 0 where
  pub id : ℕ
  pub valid : Bool
  pub dirty : Bool
  pub dev : ℕ
  pub blockno : ℕ
  pub locked : Bool
  pub refcnt : ℕ

pub record Bcache : Type 0 where
  pub lock : Bool
  pub buf : List Buf

abbrev pub set_buf : ℕ → (Buf → Buf) → Bcache → Bcache
set_buf i f k = record k { buf = modify k.buf i f }

unfoldable pub acquire : Bcache → Outcome Bcache
acquire k = if k.lock then panic else ok (record k { lock = true })

unfoldable pub release : Bcache → Outcome Bcache
release k = if k.lock then ok (record k { lock = false }) else panic

-- The first loop of `bget`, from place `i` of the list on.
unfoldable pub cached_loop : ℕ → ℕ → List Buf → ℕ → Option ℕ
cached_loop dev blockno [] i = none
cached_loop dev blockno (b ∷ bs) i =
    if b.dev == dev && b.blockno == blockno then some i else cached_loop dev blockno bs (i + 1)

-- The second loop, which comes from the end of the list.
unfoldable pub unused_loop : List Buf → ℕ → Option ℕ
unused_loop [] i = none
unused_loop (b ∷ bs) i = elim (unused_loop bs (i + 1)) [
  | some j ↦ some j
  | none ↦ if b.refcnt == 0 && not b.dirty then some i else none
]

-- `bget` ends with the buffer locked, or waits for its lock in `acquiresleep`.
pub data Bget : Type 0 where
  got : (i : ℕ) (k : Bcache) → Bget
  waits : (i : ℕ) (k : Bcache) → Bget

unfoldable pub acquiresleep : ℕ → Bcache → Outcome Bget
acquiresleep i k = elim (get_elem? k.buf i) [
  | none ↦ fault
  | some b ↦
      ok (if b.locked then waits i k else got i (set_buf i (λ b. record b { locked = true }) k))
]

unfoldable pub bget : ℕ → ℕ → Bcache → Outcome Bget
unfolding acquire release cached_loop unused_loop acquiresleep
bget dev blockno k = do
  k ← acquire k
  elim (cached_loop dev blockno k.buf 0) [
    | some i ↦
        release (set_buf i (λ b. record b { refcnt = (b.refcnt + 1) % 2 ^ 32 }) k)
        >>= acquiresleep i
    | none ↦ elim (unused_loop k.buf 0) [
      | none ↦ panic
      | some i ↦
          release (
            set_buf i
              (λ b. record b {
                dev = dev;
                blockno = blockno;
                valid = false;
                dirty = false;
                refcnt = 1;
              })
              k)
          >>= acquiresleep i
    ]
  ]

-- `b` at the head of the list, out of its place `i`.
abbrev pub to_head : ℕ → Buf → List Buf → List Buf
to_head i b bs = b ∷ take i bs ++ drop (i + 1) bs

-- `brelse` of the buffer at place `i`, which this process has locked.
unfoldable pub brelse : ℕ → Bcache → Outcome Bcache
unfolding acquire release
brelse i k = do
  b ← elim (get_elem? k.buf i) [ none ↦ fault | some b ↦ ok b ]
  if not b.locked then panic else (do
    k ← acquire (set_buf i (λ b. record b { locked = false }) k)
    let b = record b { locked = false; refcnt = b.refcnt - 1 }
    release
        (record k { buf = if b.refcnt == 0 then to_head i b k.buf else modify k.buf i (λ _. b) }))
