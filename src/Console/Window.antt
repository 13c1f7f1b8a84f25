-- ===== src/Console/Window.antt =====
-- What a read of the console's input buffer, in console.c, is to do.
use a.Base.{
  ℕ, zero, suc, ◌+◌, ◌%◌, ◌^◌, ◌≤◌, ◌<◌, ◌≡◌, ◌≢◌, Bool, true, false, List, [], ◌∷◌, ◌++◌, length,
  get_or,
}
use a.Console.{control, input_buf, Input, minus, ReadEnd, got, read_killed, read_asleep}
use a.Console.Indices.{IsInput}

-- `m` bytes of the circular buffer, from the index `r` on
unfoldable pub window : List ℕ → ℕ → ℕ → List ℕ
window buf r zero = []
window buf r (suc m) = get_or buf (r % input_buf) 0 ∷ window buf ((r + 1) % 2 ^ 32) m

-- the byte that comes after `m` others
abbrev pub next : Input → ℕ → ℕ
next k m = get_or k.buf ((k.r + m) % 2 ^ 32 % input_buf) 0

-- `m` bytes are taken from the buffer, and the lock is free
abbrev pub after : ℕ → Input → Input
after m k = record k { r = (k.r + m) % 2 ^ 32; lock = false }

-- The first `m` bytes are neither ends of lines nor ^D.
abbrev pub Plain : Input → ℕ → Type 0
Plain k m = (i : ℕ) → i < m → (next k i ≢ control b'D') × (next k i ≢ b'\n')

-- How a read of `n` bytes, behind the `bytes` in hand, ends after `m` plain bytes.
pub data Stops (bytes : List ℕ) (n : ℕ) (killed : Bool) (k : Input) (m : ℕ) (e : ReadEnd)
    : Type 0 where
  -- all bytes asked for
  filled : m ≡ n → e ≡ got (bytes ++ window k.buf k.r m) (after m k) → Stops bytes n killed k m e
  -- a line, with its end
  line :
      m < n
      → m < minus k.w k.r
      → next k m ≡ b'\n'
      → e ≡ got (bytes ++ window k.buf k.r (suc m)) (after (suc m) k)
      → Stops bytes n killed k m e
  -- ^D behind some bytes stays in the buffer
  cut :
      m < n
      → m < minus k.w k.r
      → next k m ≡ control b'D'
      → 0 < length bytes + m
      → e ≡ got (bytes ++ window k.buf k.r m) (after m k)
      → Stops bytes n killed k m e
  -- ^D alone is taken
  nothing :
      m < n
      → m < minus k.w k.r
      → next k m ≡ control b'D'
      → length bytes + m ≡ 0
      → e ≡ got (bytes ++ window k.buf k.r m) (after (suc m) k)
      → Stops bytes n killed k m e
  -- the buffer is empty
  dies :
      m < n
      → m ≡ minus k.w k.r
      → killed ≡ true
      → e ≡ read_killed (after m k)
      → Stops bytes n killed k m e
  sleeps :
      (rest : ℕ)
      → m < n
      → m + rest ≡ n
      → m ≡ minus k.w k.r
      → killed ≡ false
      → e ≡ read_asleep (bytes ++ window k.buf k.r m) rest (after m k)
      → Stops bytes n killed k m e

-- the input buffer that is left
abbrev pub left : ReadEnd → Input
left e = elim e [ got all k ↦ k | read_killed k ↦ k | read_asleep all n k ↦ k ]

-- What `consoleread` does: `m` plain bytes are there, and it stops after them.
pub record Reads (bytes : List ℕ) (n : ℕ) (killed : Bool) (k : Input) (e : ReadEnd) : Type 0 where
  pub count : ℕ
  pub there : count ≤ minus k.w k.r
  pub plain : Plain k count
  pub stops : Stops bytes n killed k count e
  pub input : IsInput (left e)
