-- ===== src/Pipe/Transfer.antt =====
-- What `pipewrite`, `piperead` and `pipeclose` of pipe.c do to the bytes in a pipe.
use a.Base.{
  get_or, ℕ, zero, suc, ◌+◌, ◌%◌, ◌^◌, ◌≡◌, refl, sym, ap, ◌∙◌, ◌≢◌, ◌⊎◌, inl, inr, Bool, true,
  false, ◌&&◌, ◌||◌, not, List, [], ◌∷◌, ◌++◌, arith, if◌then◌else◌, Bool-cases, length, take, drop,
  ok, pos, negsuc, minus_one,
}
use mathlib.Core.List.{append_assoc, append-nil}
use a.Pipe.{
  Pipe, nread_chan, nwrite_chan, pipe_size, put, full, empty, WriteEnd, returned, asleep,
  write_loop, pipewrite, ReadEnd, got, read_killed, read_asleep, read_loop, piperead, pipeclose,
}
use a.Pipe.Window.{count, contents, IsPipe, length-contents, contents-put, put-IsPipe, full_iff}

-- How `pipewrite` of `bytes` (the last ones of `n`) may end, from a pipe that held `held`: it wrote all
-- of them; or the pipe filled up after a prefix, and it fails, or sleeps with the rest left.
abbrev pub WriteOk : Bool → ℕ → List ℕ → List ℕ → WriteEnd → Type 0
WriteOk killed n held bytes (returned (pos m) p) =
    (m ≡ n) × (contents p ≡ held ++ bytes) × IsPipe p × (p.lock ≡ false)
WriteOk killed n held bytes (returned (negsuc m) p) =
    (done : List ℕ) × (rest : List ℕ) × (bytes ≡ done ++ rest)
    × (contents p ≡ held ++ done)
    × (count p ≡ pipe_size)
    × ((p.readopen ≡ false) ⊎ (killed ≡ true))
    × (m ≡ 0)
    × IsPipe p
    × (p.lock ≡ false)
WriteOk killed n held bytes (asleep rest p) =
    (done : List ℕ) × (bytes ≡ done ++ rest)
    × (contents p ≡ held ++ done)
    × (count p ≡ pipe_size)
    × (p.readopen ≡ true)
    × (killed ≡ false)
    × (p.lock ≡ false)
    × IsPipe p
    × (rest ≢ [])

-- The same before the byte `x` was written.
WriteOk-cons :
    (killed : Bool) (n x : ℕ) (held bytes : List ℕ) (e : WriteEnd)
    → WriteOk killed n (held ++ (x ∷ [])) bytes e
    → WriteOk killed n held (x ∷ bytes) e
WriteOk-cons killed n x held bytes (returned (pos m) p) (a, b, c, d) =
    (a, b ∙ append_assoc held (x ∷ []) bytes, c, d)
WriteOk-cons killed n x held bytes (returned (negsuc m) p) (done, rest, a, b, c, d, e, f, g) =
    (x ∷ done, rest, ap (λ ys. x ∷ ys) a, b ∙ append_assoc held (x ∷ []) done, c, d, e, f, g)
WriteOk-cons killed n x held bytes (asleep rest p) (done, a, b, c, d, e, f, g, h) =
    (x ∷ done, ap (λ ys. x ∷ ys) a, b ∙ append_assoc held (x ∷ []) done, c, d, e, f, g, h)

same-IsPipe :
    (p q : Pipe) → q.buf ≡ p.buf → q.nread ≡ p.nread → q.nwrite ≡ p.nwrite → IsPipe p → IsPipe q
same-IsPipe p q a b c v =
    let v1 = v.size in
    let v2 = v.read_small in
    let v3 = v.write_small in
    let v4 = v.fits in
    record {
      size = ap length a ∙ v1;
      read_small = rw b v2;
      write_small = rw c v3;
      fits = rw (b, c) v4;
    }

write_loop-WriteOk :
    (killed : Bool) (n : ℕ) (bytes : List ℕ) (p : Pipe)
    → IsPipe p
    → p.lock ≡ true
    → (e : WriteEnd) × (write_loop killed n bytes p ≡ ok e) × WriteOk killed n (contents p) bytes e
unfolding write_loop put
write_loop-WriteOk killed n [] p v lk = (
  returned (pos n) (record p { lock = false; wakeups = nread_chan ∷ p.wakeups }),
  ground arith,
  (refl, sym (append-nil (contents p)), same-IsPipe p _ refl refl refl v, refl),
)
write_loop-WriteOk killed n (x ∷ xs) p v lk = elim (Bool-cases (full p)) [
  | inr room ↦
      let (e, r, w) = write_loop-WriteOk killed n xs (put x p) (put-IsPipe p v x room) lk in
      (
        e,
        ground arith,
        WriteOk-cons killed n x (contents p) xs e (rw (contents-put p v x room) at w),
      )
  | inl no_room ↦
      let many = (full_iff p v).0 no_room in
      elim (Bool-cases (not p.readopen || killed)) [
        | inl stop ↦ (
          returned minus_one (record p { lock = false }),
          ground arith,
          (
            [],
            x ∷ xs,
            refl,
            sym (append-nil (contents p)),
            many,
            ground arith,
            refl,
            same-IsPipe p _ refl refl refl v,
            refl,
          ),
        )
        | inr go ↦ (
          asleep (x ∷ xs) (record p { lock = false; wakeups = nread_chan ∷ p.wakeups }),
          ground arith,
          (
            [],
            refl,
            sym (append-nil (contents p)),
            many,
            ground arith,
            ground arith,
            refl,
            same-IsPipe p _ refl refl refl v,
            ground arith,
          ),
        )
      ]
]

-- `pipewrite` of `bytes` to a pipe that is not locked ends with the lock released, in one of three
-- ways. It returns `n`, and has put all the bytes, in order, behind those in the pipe. Or the pipe is
-- full after a prefix of them: then it returns -1 if the reading end is closed or the process is
-- killed, and otherwise sleeps with exactly the other bytes left.
pub pipewrite-WriteOk :
    (killed : Bool) (n : ℕ) (bytes : List ℕ) (p : Pipe)
    → IsPipe p
    → p.lock ≡ false
    → (e : WriteEnd) × (pipewrite killed n bytes p ≡ ok e) × WriteOk killed n (contents p) bytes e
unfolding pipewrite
pipewrite-WriteOk killed n bytes p v lk =
    let q = record p { lock = true } in
    let (e, r, w) = write_loop-WriteOk killed n bytes q (same-IsPipe p q refl refl refl v) refl in
    (e, rw lk r, w)

count-zero : (p : Pipe) → IsPipe p → (empty p ≡ true → count p ≡ 0) × (count p ≡ 0 → empty p ≡ true)
count-zero p v = let b = v.read_small in let c = v.write_small in (ground arith, ground arith)

take-nil : (n : ℕ) → (take {A = ℕ} n [] ≡ []) × (drop {A = ℕ} n [] ≡ [])
take-nil zero = (refl, refl)
take-nil (suc n) = (refl, refl)

-- The loop takes the oldest bytes, as many as there are up to `n`.
read_loop-taken :
    (n : ℕ) (p : Pipe)
    → IsPipe p
    → ((read_loop n p).0 ≡ take n (contents p))
      × (contents (read_loop n p).1 ≡ drop n (contents p))
      × IsPipe (read_loop n p).1
      × ((read_loop n p).1.lock ≡ p.lock)
unfolding read_loop
read_loop-taken zero p v = (refl, refl, v, refl)
read_loop-taken (suc n) p v = elim (Bool-cases (empty p)) [
  | inl none_left ↦
      let z = (count-zero p v).0 none_left in
      let nil : contents p ≡ [] = rw z in rw (none_left, nil) (refl, refl, v, refl)
  | inr some_left ↦
      let p' = record p { nread = (p.nread + 1) % 2 ^ 32 } in
      let b = v.read_small in
      let c = v.write_small in
      let d = v.fits in
      let less : count p ≡ suc (count p') = ground arith in
      let v' : IsPipe p' = record {
        size = v.size;
        read_small = omega arith;
        write_small = c;
        fits = omega arith;
      } in
      let head : contents p ≡ get_or p.buf (p.nread % pipe_size) 0 ∷ contents p' = rw less in
      let (t, dr, ok', lk) = read_loop-taken n p' v' in
      rw (some_left, head) (ap (λ ys. get_or p.buf (p.nread % pipe_size) 0 ∷ ys) t, dr, ok', lk)
]

some_or_closed :
    (p : Pipe)
    → IsPipe p
    → (empty p && p.writeopen) ≡ false
    → (contents p ≢ []) ⊎ (p.writeopen ≡ false)
some_or_closed p v go = elim (Bool-cases p.writeopen) [
  | inr closed ↦ inr closed
  | inl opened ↦ inl (λ nil.
      let c : count p ≡ 0 = sym (length-contents p) ∙ ap length nil in
      let e = (count-zero p v).1 c in ground arith)
]

-- How `piperead` may end, from a pipe that held `held`.
abbrev pub ReadOk : Bool → ℕ → List ℕ → Bool → ReadEnd → Type 0
ReadOk killed n held writeopen (got bytes p) =
    (bytes ≡ take n held)
    × (contents p ≡ drop n held)
    × ((held ≢ []) ⊎ (writeopen ≡ false))
    × IsPipe p
    × (p.lock ≡ false)
ReadOk killed n held writeopen (read_killed p) =
    (held ≡ []) × (contents p ≡ []) × (killed ≡ true) × (writeopen ≡ true) × (p.lock ≡ false)
ReadOk killed n held writeopen (read_asleep p) =
    (held ≡ []) × (contents p ≡ []) × (killed ≡ false) × (writeopen ≡ true) × (p.lock ≡ false)

-- `piperead` of `n` bytes from a pipe that is not locked ends with the lock released. If the pipe
-- holds a byte, or nobody can write any more, it returns the oldest bytes, at most `n`, and leaves the
-- rest; else it fails if the process is killed, and sleeps if not.
pub piperead-ReadOk :
    (killed : Bool) (n : ℕ) (p : Pipe)
    → IsPipe p
    → p.lock ≡ false
    → (e : ReadEnd) × (piperead killed n p ≡ ok e) × ReadOk killed n (contents p) p.writeopen e
unfolding piperead
piperead-ReadOk killed n p v lk =
    let q = record p { lock = true } in
    let vq = same-IsPipe p q refl refl refl v in
    let (t, dr, v', lk') = read_loop-taken n q vq in
    let out = (read_loop n q).1 in
    let z : empty p ≡ true → contents p ≡ [] = λ e. let c = (count-zero p v).0 e in rw c in
    elim (Bool-cases (empty p && p.writeopen)) [
      | inl wait ↦ elim (Bool-cases killed) [
        | inl k ↦ (
          read_killed (record p { lock = false }),
          ground arith,
          (z (ground arith), z (ground arith), k, ground arith, refl),
        )
        | inr k ↦ (
          read_asleep (record p { lock = false }),
          ground arith,
          (z (ground arith), z (ground arith), k, ground arith, refl),
        )
      ]
      | inr go ↦ (
        got (read_loop n q).0 (record out { lock = false; wakeups = nwrite_chan ∷ out.wakeups }),
        rw (lk, go, lk') refl,
        (t, dr, some_or_closed p v go, same-IsPipe out _ refl refl refl v', refl),
      )
    ]

-- `pipeclose` frees the page exactly if the other end is closed already; either way it closes its end,
-- wakes the other one up, and releases the lock.
pub pipeclose_lem :
    (writable : Bool) (p : Pipe)
    → p.lock ≡ false
    → (p' : Pipe) × (pipeclose writable p
        ≡ ok ((if writable then not p.readopen else not p.writeopen), p'))
      × (p'.writeopen ≡ (not writable && p.writeopen))
      × (p'.readopen ≡ (writable && p.readopen))
      × (p'.wakeups ≡ (if writable then nread_chan else nwrite_chan) ∷ p.wakeups)
      × (contents p' ≡ contents p)
      × (p'.lock ≡ false)
unfolding pipeclose
pipeclose_lem true p lk = (
  record p { writeopen = false; wakeups = nread_chan ∷ p.wakeups; lock = false },
  ground arith,
  refl,
  refl,
  refl,
  refl,
  refl,
)
pipeclose_lem false p lk = (
  record p { readopen = false; wakeups = nwrite_chan ∷ p.wakeups; lock = false },
  ground arith,
  refl,
  refl,
  refl,
  refl,
  refl,
)
