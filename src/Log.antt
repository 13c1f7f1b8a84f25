-- ===== src/Log.antt =====
-- log.c: the redo log that makes a group of file system calls atomic, and its operations' admission.
pub mod Install
pub mod Record
pub mod Writes
pub mod Recovery
pub mod Crash
pub mod Frame
pub mod Admission
use a.Base.{
  ℕ, zero, suc, ◌+◌, ◌-◌, ◌*◌, ◌/◌, ◌%◌, ◌^◌, ◌≤◌, ◌<◌, min, ◌≡◌, refl, sym, ap, ap₂, ◌∙◌, fun_ext,
  ◌≢◌, ◌↔◌, ◌⊎◌, inl, inr, Bool, true, false, ◌&&◌, ◌||◌, not, Option, none, some, List, [], ◌∷◌,
  ◌++◌, map, arith, ltb, leb, ◌==◌, if◌then◌else◌, ==_iff, Bool-cases, Option-cases, length,
  get_elem?, set, take, drop, replicate, modify, All, Outcome, ok, panic, fault, ◌>>=◌, ℤ, pos,
  negsuc, minus_one,
}

abbrev pub log_size : ℕ
log_size = 30

abbrev pub max_op_blocks : ℕ
max_op_blocks = 10

-- The disk: the contents of its blocks, as numbers, and the header block at `log.start`, read as a
-- `struct logheader`: the block numbers `block[0..n)`.
pub record Disk : Type 0 where
  pub block : ℕ → ℕ
  pub head : List ℕ

-- `struct log` with the world around it. `blocks` is `lh`, `view b` what `bread` of block `b` shows:
-- the cached copy, or the disk's. `dirty` are the blocks pinned by B_DIRTY. `power` is the number of
-- disk writes before the machine loses power, from when on a write does nothing.
pub record Log : Type 0 where
  pub lock : Bool
  pub start : ℕ
  pub size : ℕ
  pub outstanding : ℕ
  pub committing : Bool
  pub blocks : List ℕ
  pub view : ℕ → ℕ
  pub dirty : List ℕ
  pub disk : Disk
  pub power : ℕ

abbrev pub update : (ℕ → ℕ) → ℕ → ℕ → ℕ → ℕ
update f b x a = if a == b then x else f a

unfoldable pub acquire : Log → Outcome Log
acquire l = if l.lock then panic else ok (record l { lock = true })

unfoldable pub release : Log → Outcome Log
release l = if l.lock then ok (record l { lock = false }) else panic

-- `bwrite`: the buffer of block `b` goes to the disk.
unfoldable pub bwrite : ℕ → Log → Log
bwrite b l = elim l.power [
  | zero ↦ l
  | suc n ↦ record l {
    power = n;
    disk = record (l.disk) { block = update l.disk.block b (l.view b) };
  }
]

-- `memmove(to->data, from->data, BSIZE); bwrite(to);`
unfoldable pub copy_block : ℕ → ℕ → Log → Log
unfolding bwrite
copy_block to from l = bwrite to (record l { view = update l.view to (l.view from) })

-- The loop of `install_trans`, from the log block `slot` on.
unfoldable pub install_loop : ℕ → List ℕ → Log → Log
unfolding copy_block
install_loop slot [] l = l
install_loop slot (b ∷ bs) l = install_loop (slot + 1) bs (copy_block b slot l)

unfoldable pub install_trans : Log → Log
unfolding install_loop
install_trans l = install_loop (l.start + 1) l.blocks l

unfoldable pub read_head : Log → Log
read_head l = record l { blocks = l.disk.head }

unfoldable pub write_head : Log → Log
write_head l = elim l.power [
  | zero ↦ l
  | suc n ↦ record l { power = n; disk = record (l.disk) { head = l.blocks } }
]

unfoldable pub recover_from_log : Log → Log
unfolding read_head install_trans write_head
recover_from_log l = let l' = install_trans (read_head l) in write_head (record l' { blocks = [] })

-- The loop of `write_log`, from the log block `slot` on.
unfoldable pub write_loop : ℕ → List ℕ → Log → Log
unfolding copy_block
write_loop slot [] l = l
write_loop slot (b ∷ bs) l = write_loop (slot + 1) bs (copy_block slot b l)

unfoldable pub write_log : Log → Log
unfolding write_loop
write_log l = write_loop (l.start + 1) l.blocks l

-- After the copies to their homes the blocks are clean: `iderw` clears B_DIRTY.
unfoldable pub commit : Log → Log
unfolding write_log write_head install_trans
commit l =
    if ltb 0 (length l.blocks)
    then write_head (record (install_trans (write_head (write_log l))) { blocks = []; dirty = [] })
    else l

-- What a machine that starts again finds: the disk, and an empty cache.
abbrev pub reboot : ℕ → Log → Log
reboot power l = record l {
  lock = false;
  outstanding = 0;
  committing = false;
  blocks = [];
  view = l.disk.block;
  dirty = [];
  power = power;
}

-- One round of the loop of `begin_op`: it enters, or sleeps, with the lock released.
pub data Entry : Type 0 where
  entered : Log → Entry
  begin_asleep : Log → Entry

unfoldable pub begin_op : Log → Outcome Entry
unfolding acquire release
begin_op l = do
  l ← acquire l
  if l.committing
      then (release l >>= (λ l. ok (begin_asleep l)))
      else if ltb log_size (length l.blocks + (l.outstanding + 1) * max_op_blocks)
      then (release l >>= (λ l. ok (begin_asleep l)))
      else (release (record l { outstanding = l.outstanding + 1 }) >>= (λ l. ok (entered l)))

-- `end_op`; `outstanding` is not 0 when it is called. Its calls of `wakeup(&log)` change no field.
unfoldable pub end_op : Log → Outcome Log
unfolding acquire release
end_op l = do
  l ← acquire l
  if l.committing
      then panic
      else if l.outstanding - 1 == 0
      then (release (record l { outstanding = l.outstanding - 1; committing = true })
          >>= (λ l. acquire (commit l))
          >>= (λ l. release (record l { committing = false })))
      else release (record l { outstanding = l.outstanding - 1 })

-- The loop of `log_write`: `lh.block` with the number `b` entered, at its place or at the end.
unfoldable pub absorb : ℕ → List ℕ → List ℕ
absorb b [] = b ∷ []
absorb b (x ∷ xs) = if x == b then x ∷ xs else x ∷ absorb b xs

-- `log_write` of the buffer of block `b`.
unfoldable pub log_write : ℕ → Log → Outcome Log
unfolding acquire release absorb
log_write b l =
    if leb log_size (length l.blocks) || leb (l.size - 1) (length l.blocks)
    then panic
    else if ltb l.outstanding 1
    then panic
    else (do l ← acquire l; release (record l { blocks = absorb b l.blocks; dirty = b ∷ l.dirty }))
