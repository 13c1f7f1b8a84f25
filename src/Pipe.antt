-- ===== src/Pipe.antt =====
-- pipe.c: a circular buffer of bytes between two open ends.
pub mod Window
pub mod Transfer
use a.Base.{
  ℕ, zero, suc, ◌+◌, ◌-◌, ◌*◌, ◌/◌, ◌%◌, ◌^◌, ◌≤◌, ◌<◌, min, ◌≡◌, refl, sym, ap, ap₂, ◌∙◌, fun_ext,
  ◌≢◌, ◌↔◌, ◌⊎◌, inl, inr, Bool, true, false, ◌&&◌, ◌||◌, not, Option, none, some, List, [], ◌∷◌,
  ◌++◌, map, arith, ltb, leb, ◌==◌, if◌then◌else◌, ==_iff, Bool-cases, Option-cases, length,
  get_elem?, set, take, drop, replicate, modify, All, Outcome, ok, panic, fault, ◌>>=◌, ℤ, pos,
  negsuc, minus_one, get_or,
}

abbrev pub pipe_size : ℕ
pipe_size = 512

-- The channels that a pipe's ends sleep on, `&p->nread` and `&p->nwrite`.
pub data Chan : Type 0 where
  nread_chan nwrite_chan : Chan

-- `struct pipe`. The counters are 32-bit; `lock` says whether this CPU holds the lock; `wakeups` are
-- the calls of `wakeup` so far, the last one first.
pub record Pipe : Type 0 where
  pub lock : Bool
  pub buf : List ℕ
  pub nread : ℕ
  pub nwrite : ℕ
  pub readopen : Bool
  pub writeopen : Bool
  pub wakeups : List Chan

abbrev pub wakeup : Chan → Pipe → Pipe
wakeup c p = record p { wakeups = c ∷ p.wakeups }

unfoldable pub acquire : Pipe → Outcome Pipe
acquire p = if p.lock then panic else ok (record p { lock = true })

unfoldable pub release : Pipe → Outcome Pipe
release p = if p.lock then ok (record p { lock = false }) else panic

-- What `pipealloc` makes of a page.
abbrev pub new_pipe : List ℕ → Pipe
new_pipe page = record {
  lock = false;
  buf = page;
  nread = 0;
  nwrite = 0;
  readopen = true;
  writeopen = true;
  wakeups = [];
}

-- `pipeclose`: the pipe, and whether it was freed.
unfoldable pub pipeclose : Bool → Pipe → Outcome (Bool × Pipe)
unfolding acquire release
pipeclose writable p = do
  p ← acquire p
  let p' =
      if writable
      then wakeup nread_chan (record p { writeopen = false })
      else wakeup nwrite_chan (record p { readopen = false })
  if not p'.readopen && not p'.writeopen
      then (release p' >>= (λ q. ok (true, q)))
      else (release p' >>= (λ q. ok (false, q)))

-- `p->nwrite == p->nread + PIPESIZE`
abbrev pub full : Pipe → Bool
full p = p.nwrite == (p.nread + pipe_size) % 2 ^ 32

-- `p->nread == p->nwrite`
abbrev pub empty : Pipe → Bool
empty p = p.nread == p.nwrite

-- `p->data[p->nwrite++ % PIPESIZE] = x`
unfoldable pub put : ℕ → Pipe → Pipe
put x p = record p { buf = set p.buf (p.nwrite % pipe_size) x; nwrite = (p.nwrite + 1) % 2 ^ 32 }

-- How a call ends: it returns, or it sleeps, with the lock released, and goes on from there with the
-- bytes that are left.
pub data WriteEnd : Type 0 where
  returned : ℤ → Pipe → WriteEnd
  asleep : List ℕ → Pipe → WriteEnd

-- The loop of `pipewrite` with the lock held and the bytes `addr[i..n)` to go; `killed` is
-- `myproc()->killed`.
unfoldable pub write_loop : Bool → ℕ → List ℕ → Pipe → Outcome WriteEnd
unfolding release put
write_loop killed n [] p = release (wakeup nread_chan p) >>= λ p. ok (returned (pos n) p)
write_loop killed n (x ∷ xs) p =
    let rest = write_loop killed n xs (put x p) in
    if full p
    then (if not p.readopen || killed
        then release p >>= (λ p. ok (returned minus_one p))
        else release (wakeup nread_chan p) >>= (λ p. ok (asleep (x ∷ xs) p)))
    else rest

-- `pipewrite` from its start, or from where it slept, with `bytes` left of the `n` to write.
unfoldable pub pipewrite : Bool → ℕ → List ℕ → Pipe → Outcome WriteEnd
unfolding acquire write_loop
pipewrite killed n bytes p = acquire p >>= write_loop killed n bytes

-- The second loop of `piperead`: the bytes copied out, and the pipe.
unfoldable pub read_loop : ℕ → Pipe → List ℕ × Pipe
read_loop zero p = ([], p)
read_loop (suc n) p =
    let rest = read_loop n (record p { nread = (p.nread + 1) % 2 ^ 32 }) in
    if empty p then ([], p) else (get_or p.buf (p.nread % pipe_size) 0 ∷ rest.0, rest.1)

pub data ReadEnd : Type 0 where
  got : List ℕ → Pipe → ReadEnd
  read_killed : Pipe → ReadEnd
  read_asleep : Pipe → ReadEnd

-- `piperead`, from its start or from where it slept: it returns the number of bytes in `got`, or -1 if
-- the process is killed while it waits.
unfoldable pub piperead : Bool → ℕ → Pipe → Outcome ReadEnd
unfolding acquire release read_loop
piperead killed n p = do
  p ← acquire p
  if empty p && p.writeopen
      then (if killed
          then release p >>= (λ p. ok (read_killed p))
          else release p >>= (λ p. ok (read_asleep p)))
      else (do let out = read_loop n p; p ← release (wakeup nwrite_chan out.1); ok (got out.0 p))
