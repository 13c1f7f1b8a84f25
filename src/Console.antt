-- ===== src/Console.antt =====
-- console.c: the input line buffer, the screen and formatted output.
pub mod Screen
pub mod Format
pub mod Indices
pub mod Window
pub mod Reading
use a.Base.{
  ℕ, zero, suc, ◌+◌, ◌-◌, ◌*◌, ◌/◌, ◌%◌, ◌^◌, ◌≤◌, ◌<◌, min, ◌≡◌, refl, sym, ap, ap₂, ◌∙◌, fun_ext,
  ◌≢◌, ◌↔◌, ◌⊎◌, inl, inr, Bool, true, false, ◌&&◌, ◌||◌, not, Option, none, some, List, [], ◌∷◌,
  ◌++◌, map, arith, ltb, leb, ◌==◌, if◌then◌else◌, ==_iff, Bool-cases, Option-cases, length,
  get_elem?, set, take, drop, replicate, modify, All, Outcome, ok, panic, fault, ◌>>=◌, ℤ, pos,
  negsuc, minus_one, get_or,
}

abbrev pub backspace : ℕ
backspace = 0x100

-- `C(x)`
abbrev pub control : ℕ → ℕ
control x = x - b'@'

abbrev pub input_buf : ℕ
input_buf = 128

-- `input`, with the indices as 32-bit numbers, and `cons.lock`. `echoed` are the arguments of
-- `consputc`, and `wakeups` counts the calls of `wakeup(&input.r)`.
pub record Input : Type 0 where
  pub lock : Bool
  pub buf : List ℕ
  pub r : ℕ
  pub w : ℕ
  pub e : ℕ
  pub echoed : List ℕ
  pub wakeups : ℕ

-- `a - b` of `uint`s
abbrev pub minus : ℕ → ℕ → ℕ
minus a b = (a + 2 ^ 32 - b) % 2 ^ 32

unfoldable pub acquire : Input → Outcome Input
acquire k = if k.lock then panic else ok (record k { lock = true })

unfoldable pub release : Input → Outcome Input
release k = if k.lock then ok (record k { lock = false }) else panic

-- `input.e--; consputc(BACKSPACE);`
unfoldable pub erase : Input → Input
erase k = record k { e = minus k.e 1; echoed = k.echoed ++ (backspace ∷ []) }

-- The loop of the case `C('U')`. Its rounds are at most the characters between `w` and `e`.
unfoldable pub kill_line : ℕ → Input → Input
kill_line zero k = k
kill_line (suc n) k =
    let rest = kill_line n (erase k) in
    if k.e == k.w || get_or k.buf (minus k.e 1 % input_buf) 0 == b'\n' then k else rest

-- The default case, for a character other than 0 with room for it.
unfoldable pub enter : ℕ → Input → Input
enter c k =
    let c' = if c == b'\r' then b'\n' else c in
    let k' = record k {
      buf = set k.buf (k.e % input_buf) c';
      e = (k.e + 1) % 2 ^ 32;
      echoed = k.echoed ++ (c' ∷ []);
    } in
    if c' == b'\n' || c' == control b'D' || k'.e == (k'.r + input_buf) % 2 ^ 32
    then record k' { w = k'.e; wakeups = k'.wakeups + 1 }
    else k'

-- The switch of `consoleintr`: the state, and whether `doprocdump` is set.
unfoldable pub intr_char : ℕ → Input → Bool × Input
intr_char c k =
    if c == control b'P'
    then (true, k)
    else if c == control b'U'
    then (false, kill_line (minus k.e k.w) k)
    else if c == control b'H' || c == 0x7f
    then (false, if k.e == k.w then k else erase k)
    else if not (c == 0) && ltb (minus k.e k.r) input_buf
    then (false, enter c k)
    else (false, k)

-- The loop of `consoleintr` over what `getc` returns before a negative number.
unfoldable pub intr_loop : List ℕ → Bool → Input → Bool × Input
intr_loop [] dump k = (dump, k)
intr_loop (c ∷ cs) dump k = let r = intr_char c k in intr_loop cs (dump || r.0) r.1

-- Whether `procdump` is called after, and the state.
unfoldable pub consoleintr : List ℕ → Input → Outcome (Bool × Input)
consoleintr cs k = do k ← acquire k; let r = intr_loop cs false k; k ← release r.1; ok (r.0, k)

-- How `consoleread` ends, with the lock of the inode taken again: the bytes read; -1, since the
-- process is killed while it waits; or it sleeps, with `n` bytes still to read behind those in hand.
pub data ReadEnd : Type 0 where
  got : List ℕ → Input → ReadEnd
  read_killed : Input → ReadEnd
  read_asleep : (bytes : List ℕ) (n : ℕ) → Input → ReadEnd

-- The loop of `consoleread`, with `bytes` read and `n` to go.
unfoldable pub read_loop : Bool → List ℕ → ℕ → Input → Outcome ReadEnd
read_loop killed bytes zero k = release k >>= λ k. ok (got bytes k)
read_loop killed bytes (suc n) k =
    let c = get_or k.buf (k.r % input_buf) 0 in
    let k' = record k { r = (k.r + 1) % 2 ^ 32 } in
    let rest = read_loop killed (bytes ++ (c ∷ [])) n k' in
    if k.r == k.w
    then (if killed
        then release k >>= (λ k. ok (read_killed k))
        else release k >>= (λ k. ok (read_asleep bytes (suc n) k)))
    else if c == control b'D'
    then (if ltb 0 (length bytes)
        then release k >>= (λ k. ok (got bytes k))
        else release k' >>= (λ k. ok (got bytes k)))
    else if c == b'\n'
    then release k' >>= (λ k. ok (got (bytes ++ (c ∷ [])) k))
    else rest

unfoldable pub consoleread : Bool → List ℕ → ℕ → Input → Outcome ReadEnd
consoleread killed bytes n k = acquire k >>= read_loop killed bytes n

-- What `consolewrite` passes to `consputc`, byte by byte.
unfoldable pub consolewrite : List ℕ → Input → Outcome Input
consolewrite bytes k = do
  k ← acquire k
  release (record k { echoed = k.echoed ++ map (λ b. b % 256) bytes })
