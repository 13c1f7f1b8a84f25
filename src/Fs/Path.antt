-- ===== src/Fs/Path.antt =====
-- fs.c: paths. A string is the list of its characters before the NUL.
pub mod Elements
use a.Base.{
  ℕ, zero, suc, ◌+◌, ◌-◌, ◌*◌, ◌/◌, ◌%◌, ◌^◌, ◌≤◌, ◌<◌, min, ◌≡◌, refl, sym, ap, ap₂, ◌∙◌, fun_ext,
  ◌≢◌, ◌↔◌, ◌⊎◌, inl, inr, Bool, true, false, ◌&&◌, ◌||◌, not, Option, none, some, List, [], ◌∷◌,
  ◌++◌, map, arith, ltb, leb, ◌==◌, if◌then◌else◌, ==_iff, Bool-cases, Option-cases, length,
  get_elem?, set, take, drop, replicate, modify, All, Outcome, ok, panic, fault, ◌>>=◌, ℤ, pos,
  negsuc, minus_one, get_or,
}
use a.Fs.{
  Superblock, Inode, Fs, update_cell, poke, log_write, bblock, iblock, readsb, bzero, bit, bpb, ipb,
  bsize, ndirect, nindirect, maxfile, bit_loop, take_block, balloc_loop, balloc, bfree,
}
use a.Fs.Icache.{inode_at, iget, idup, ilock, iunlock}
use a.Fs.Content.{Devsw, t_dir}
use a.Fs.Dir.{iput, iunlockput, dirlookup, dirsiz}

abbrev pub slash : ℕ
slash = 47

-- `while(*path == '/') path++;`
unfoldable pub skip_slashes : List ℕ → List ℕ
skip_slashes [] = []
skip_slashes (c ∷ cs) = let rest = skip_slashes cs in if c == slash then rest else c ∷ cs

-- `while(*path != '/' && *path != 0) path++;`: the characters passed, and the rest.
unfoldable pub span_element : List ℕ → List ℕ × List ℕ
span_element [] = ([], [])
span_element (c ∷ cs) =
    let (elem, rest) = span_element cs in if c == slash then ([], c ∷ cs) else (c ∷ elem, rest)

-- What `name` holds after the element was copied.
unfoldable pub copy_name : List ℕ → List ℕ → List ℕ
copy_name elem name =
    if leb dirsiz (length elem)
    then take dirsiz elem ++ drop dirsiz name
    else elem ++ 0 ∷ drop (length elem + 1) name

-- `skipelem`: the rest of the path, and `name`.
unfoldable pub skipelem : List ℕ → List ℕ → Option (List ℕ × List ℕ)
unfolding skip_slashes span_element copy_name
skipelem path name =
    let path = skip_slashes path in
    if length path == 0
    then none
    else (let (elem, rest) = span_element path in some (skip_slashes rest, copy_name elem name))

-- `iunlockput(ip); return 0;`
unfoldable pub give_up : ℕ → List ℕ → Fs → Outcome (Option (ℕ × List ℕ) × Fs)
unfolding iunlockput
give_up ip name fs = iunlockput ip fs >>= λ fs. ok (none, fs)

abbrev pub Found : Type 0
Found = Option (ℕ × List ℕ)

-- The body of the loop of `namex`, when `skipelem` left `path` and `name`; `again` is the next round.
unfoldable pub descend :
    Devsw → Bool → List ℕ → List ℕ → (ℕ → Fs → Outcome (Found × Fs)) → ℕ → Fs → Outcome (Found × Fs)
unfolding inode_at ilock iunlock iunlockput dirlookup give_up
descend devsw parent path name again ip fs = do
  fs ← ilock ip fs
  n ← inode_at ip fs
  if not (n.type == t_dir)
      then give_up ip name fs
      else if parent && length path == 0
      then iunlock ip fs >>= (λ fs. ok (some (ip, name), fs))
      else (do
        (next, fs) ← dirlookup devsw ip name fs
        elim next [
          | none ↦ give_up ip name fs
          | some (next, _) ↦ iunlockput ip fs >>= λ fs. again next fs
        ])

-- What follows the loop.
unfoldable pub arrive : Bool → List ℕ → ℕ → Fs → Outcome (Found × Fs)
unfolding iput
arrive parent name ip fs =
    if parent then iput ip fs >>= (λ fs. ok (none, fs)) else ok (some (ip, name), fs)

-- The loop, in less than `k` rounds. The path gets shorter in each.
unfoldable pub walk : Devsw → ℕ → List ℕ → Bool → List ℕ → ℕ → Fs → Outcome (Found × Fs)
unfolding skipelem descend arrive
walk devsw zero path parent name ip fs = fault
walk devsw (suc k) path parent name ip fs =
    let again = walk devsw k in
    elim (skipelem path name) [
      | none ↦ arrive parent name ip fs
      | some (path, name) ↦ descend devsw parent path name (again path parent name) ip fs
    ]

-- `namex`, with `myproc()->cwd`; the result is the inode, and what `name` holds.
unfoldable pub namex : Devsw → ℕ → List ℕ → Bool → List ℕ → Fs → Outcome (Option (ℕ × List ℕ) × Fs)
unfolding iget idup walk
namex devsw cwd path parent name fs = do
  (ip, fs) ← if get_or path 0 0 == slash then iget 1 1 fs else idup cwd fs
  walk devsw (length path + 1) path parent name ip fs

-- `char name[DIRSIZ];` of `namei` is not set to anything before.
unfoldable pub namei : Devsw → ℕ → List ℕ → List ℕ → Fs → Outcome (Option (ℕ × List ℕ) × Fs)
unfolding namex
namei devsw cwd path name fs = namex devsw cwd path false name fs

unfoldable pub nameiparent : Devsw → ℕ → List ℕ → List ℕ → Fs → Outcome (Option (ℕ × List ℕ) × Fs)
unfolding namex
nameiparent devsw cwd path name fs = namex devsw cwd path true name fs
