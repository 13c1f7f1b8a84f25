-- ===== src/Fs/Content.antt =====
-- fs.c: the content of an inode, block by block. Arguments that say which process is copying are left
-- out: what is read is a list of cells, what is written is one too.
pub mod Bytes
pub mod Stored
use a.Base.{
  ℕ, zero, suc, ◌+◌, ◌-◌, ◌*◌, ◌/◌, ◌%◌, ◌^◌, min, Bool, ◌&&◌, ◌||◌, Option, none, some, List, [],
  ◌∷◌, ◌++◌, ltb, leb, ◌==◌, if◌then◌else◌, length, get_elem?, set, take, drop, Outcome, ok, panic,
  fault, ◌>>=◌,
}
use a.Fs.{Inode, Fs, poke, log_write, bsize, ndirect, nindirect, maxfile, balloc, bfree}
use a.Fs.Icache.{inode_at, set_inode, iupdate}

abbrev pub t_dir : ℕ
t_dir = 1

abbrev pub t_dev : ℕ
t_dev = 3

abbrev pub ndev : ℕ
ndev = 10

-- `devsw`: the functions of each major device number, which the drivers install.
pub record Devsw : Type 0 where
  pub read : ℕ → Option (ℕ → ℕ → Fs → Outcome (Option (List ℕ) × Fs))
  pub write : ℕ → Option (ℕ → List ℕ → Fs → Outcome (Option ℕ × Fs))

-- `ip->addrs[k]`
unfoldable pub addr_at : ℕ → Inode → Outcome ℕ
addr_at k n = elim (get_elem? n.addrs k) [ none ↦ fault | some a ↦ ok a ]

-- `if((addr = ip->addrs[k]) == 0) ip->addrs[k] = addr = balloc(ip->dev);`
unfoldable pub own_block : ℕ → ℕ → Fs → Outcome (ℕ × Fs)
unfolding inode_at addr_at balloc
own_block ip k fs = do
  n ← inode_at ip fs
  a ← addr_at k n
  if a == 0
      then balloc fs
        >>= (λ (b, fs). ok (b, set_inode ip (λ n. record n { addrs = set n.addrs k b }) fs))
      else ok (a, fs)

-- The same for entry `k` of the indirect block `addr`.
unfoldable pub indirect_block : ℕ → ℕ → Fs → Outcome (ℕ × Fs)
unfolding balloc
indirect_block addr k fs =
    let a = fs.cell addr (4 * k) in
    if a == 0
    then balloc fs >>= (λ (b, fs). ok (b, log_write addr (poke addr (4 * k) b fs)))
    else ok (a, fs)

unfoldable pub bmap : ℕ → ℕ → Fs → Outcome (ℕ × Fs)
unfolding own_block indirect_block
bmap ip bn fs =
    if ltb bn ndirect
    then own_block ip bn fs
    else if ltb (bn - ndirect) nindirect
    then (do (addr, fs) ← own_block ip ndirect fs; indirect_block addr (bn - ndirect) fs)
    else panic

-- The first loop of `itrunc`, `k` entries from `i` on.
unfoldable pub direct_loop : ℕ → ℕ → ℕ → Fs → Outcome Fs
unfolding inode_at addr_at bfree
direct_loop zero i ip fs = ok fs
direct_loop (suc k) i ip fs = do
  n ← inode_at ip fs
  a ← addr_at i n
  fs ←
      if a == 0
      then ok fs
      else bfree a fs >>= (λ fs. ok (set_inode ip (λ n. record n { addrs = set n.addrs i 0 }) fs))
  direct_loop k (i + 1) ip fs

-- The second one, over the entries of the indirect block `addr`.
unfoldable pub indirect_loop : ℕ → ℕ → ℕ → Fs → Outcome Fs
unfolding bfree
indirect_loop zero j addr fs = ok fs
indirect_loop (suc k) j addr fs = do
  fs ← if fs.cell addr (4 * j) == 0 then ok fs else bfree (fs.cell addr (4 * j)) fs
  indirect_loop k (j + 1) addr fs

unfoldable pub itrunc : ℕ → Fs → Outcome Fs
unfolding inode_at addr_at direct_loop indirect_loop bfree iupdate
itrunc ip fs = do
  fs ← direct_loop ndirect 0 ip fs
  n ← inode_at ip fs
  a ← addr_at ndirect n
  fs ← if a == 0 then ok fs else (do
    fs ← indirect_loop nindirect 0 a fs
    fs ← bfree a fs
    ok (set_inode ip (λ n. record n { addrs = set n.addrs ndirect 0 }) fs))
  iupdate ip (set_inode ip (λ n. record n { size = 0 }) fs)

-- `n` cells from `off` on, and the writing of cells: `memmove` between a buffer and the caller.
unfoldable pub cells : (ℕ → ℕ) → ℕ → ℕ → List ℕ
cells f off zero = []
cells f off (suc n) = f off ∷ cells f (off + 1) n

unfoldable pub put_cells : ℕ → ℕ → List ℕ → Fs → Fs
put_cells b off [] fs = fs
put_cells b off (c ∷ cs) fs = put_cells b (off + 1) cs (poke b off c fs)

-- The loop of `readi` for the `left` bytes from `off` on, in at most `k` rounds.
unfoldable pub read_loop : ℕ → ℕ → ℕ → ℕ → Fs → Outcome (List ℕ × Fs)
unfolding bmap cells
read_loop zero ip off left fs = if left == 0 then ok ([], fs) else fault
read_loop (suc k) ip off left fs =
    let rest = read_loop k ip in
    let m = min left (bsize - off % bsize) in
    if left == 0 then ok ([], fs) else (do
      (b, fs) ← bmap ip (off / bsize) fs
      let got = cells (fs.cell b) (off % bsize) m
      (more, fs) ← rest (off + m) (left - m) fs
      ok (got ++ more, fs))

-- `off + n < off`, on 32 bits
abbrev pub wraps : ℕ → ℕ → Bool
wraps off n = ltb ((off + n) % 2 ^ 32) off

-- `readi`; `none` is the result -1. Every round moves on by a byte at least, so `n` rounds are enough.
unfoldable pub readi : Devsw → ℕ → ℕ → ℕ → Fs → Outcome (Option (List ℕ) × Fs)
unfolding inode_at read_loop
readi devsw ip off n fs = do
  i ← inode_at ip fs
  if i.type == t_dev
      then if leb ndev i.major
        then ok (none, fs)
        else elim (devsw.read i.major) [ none ↦ ok (none, fs) | some f ↦ f ip n fs ]
      else if ltb i.size off || wraps off n
      then ok (none, fs)
      else (do
        let n = if ltb i.size (off + n) then i.size - off else n
        (got, fs) ← read_loop n ip off n fs
        ok (some got, fs))

-- The loop of `writei` for the bytes `src`.
unfoldable pub write_loop : ℕ → ℕ → ℕ → List ℕ → Fs → Outcome Fs
unfolding bmap put_cells
write_loop zero ip off src fs = if length src == 0 then ok fs else fault
write_loop (suc k) ip off src fs =
    let rest = write_loop k ip in
    let m = min (length src) (bsize - off % bsize) in
    if length src == 0 then ok fs else (do
      (b, fs) ← bmap ip (off / bsize) fs
      rest (off + m) (drop m src) (log_write b (put_cells b (off % bsize) (take m src) fs)))

-- `if(n > 0 && off > ip->size)`, where `off` is the offset after the loop
unfoldable pub grow : ℕ → ℕ → ℕ → Fs → Outcome Fs
unfolding inode_at iupdate
grow ip off n fs = do
  i ← inode_at ip fs
  if ltb 0 n && ltb i.size off
      then iupdate ip (set_inode ip (λ n. record n { size = off }) fs)
      else ok fs

unfoldable pub writei : Devsw → ℕ → List ℕ → ℕ → Fs → Outcome (Option ℕ × Fs)
unfolding inode_at write_loop grow
writei devsw ip src off fs = do
  let n = length src
  i ← inode_at ip fs
  if i.type == t_dev
      then if leb ndev i.major
        then ok (none, fs)
        else elim (devsw.write i.major) [ none ↦ ok (none, fs) | some f ↦ f ip src fs ]
      else if ltb i.size off || wraps off n
      then ok (none, fs)
      else if ltb (maxfile * bsize) (off + n)
      then ok (none, fs)
      else (do fs ← write_loop n ip off src fs; fs ← grow ip (off + n) n fs; ok (some n, fs))
