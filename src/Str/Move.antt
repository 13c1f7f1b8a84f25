-- ===== src/Str/Move.antt =====
-- `memmove` and `memset` of string.c.
use a.Base.{
  refl, ◌==◌, ℕ, zero, suc, ◌+◌, ◌-◌, ◌≤◌, ◌≡◌, ◌&&◌, ltb, leb, if◌then◌else◌, arith, ◌%◌, ◌*◌, ◌<◌,
  ◌⊎◌, Bool-cases, ◌/◌, inl, inr,
}
use a.Str.{Memory, write, copy_up, copy_down, fill_bytes, fill_words, memmove, memset}

-- `m` with the `n` bytes from `src` at `dst`.
abbrev pub moved : (dst src n : ℕ) → Memory → Memory
moved dst src n m a = if leb dst a && ltb a (dst + n) then m (src + (a - dst)) else m a

copy_up-moved :
    (n d s : ℕ) (m : Memory) (a : ℕ) → (d ≤ s) ⊎ (s + n ≤ d) → copy_up n d s m a ≡ moved d s n m a
unfolding copy_up
copy_up-moved zero d s m a h = ground arith
copy_up-moved (suc n) d s m a h =
    ground (arith, copy_up-moved n (d + 1) (s + 1) (write m d (m s)) a)

copy_down-moved :
    (n d s to from : ℕ) (m : Memory) (a : ℕ)
    → s ≤ d
    → to ≡ d + n
    → from ≡ s + n
    → copy_down n to from m a ≡ moved d s n m a
unfolding copy_down
copy_down-moved zero d s to from m a h e e' = ground arith
copy_down-moved (suc n) d s to from m a h e e' =
    ground (arith, copy_down-moved n d s (to - 1) (from - 1) (write m (to - 1) (m (from - 1))) a)

-- `memmove` leaves at `dst` the `n` bytes that stood at `src` before the call, and changes no other
-- byte, also where the two ranges overlap.
pub memmove-moved :
    (dst src n : ℕ) (m : Memory) (a : ℕ)
    → memmove dst src n m a ≡ (if leb dst a && ltb a (dst + n) then m (src + (a - dst)) else m a)
unfolding memmove
memmove-moved dst src n m a = elim (Bool-cases (ltb src dst && ltb dst (src + n))) [
  | inl overlap ↦
      rw overlap (copy_down-moved n dst src (dst + n) (src + n) m a (ground arith) refl refl)
  | inr apart ↦ rw apart (copy_up-moved n dst src m a (ground arith))
]

fill_bytes-filled :
    (n d c : ℕ) (m : Memory) (a : ℕ)
    → fill_bytes n d c m a ≡ (if leb d a && ltb a (d + n) then c % 256 else m a)
unfolding fill_bytes
fill_bytes-filled zero d c m a = ground arith
fill_bytes-filled (suc n) d c m a =
    ground (arith, fill_bytes-filled n (d + 1) c (write m d (c % 256)) a)

-- the word that `stosl` stores, and one step of it
abbrev word_of : ℕ → ℕ
word_of b = b * 16777216 + b * 65536 + b * 256 + b

abbrev store_word : Memory → ℕ → ℕ → Memory
store_word m d w =
    write (write (write (write m d (w % 256)) (d + 1) (w / 256 % 256)) (d + 2) (w / 65536 % 256))
      (d + 3) (w / 16777216 % 256)

store_word-word_of :
    (m : Memory) (d b a : ℕ)
    → b < 256
    → store_word m d (word_of b) a ≡ (if leb d a && ltb a (d + 4) then b else m a)
store_word-word_of m d b a h =
    let e0 : word_of b % 256 ≡ b = omega arith in
    let e1 : word_of b / 256 % 256 ≡ b = omega arith in
    let e2 : word_of b / 65536 % 256 ≡ b = omega arith in
    let e3 : word_of b / 16777216 % 256 ≡ b = omega arith in rw (e0, e1, e2, e3) (ground arith)

fill_words-filled :
    (n d b : ℕ) (m : Memory) (a : ℕ)
    → b < 256
    → fill_words n d (word_of b) m a ≡ (if leb d a && ltb a (d + n * 4) then b else m a)
unfolding fill_words
fill_words-filled zero d b m a h = ground arith
fill_words-filled (suc n) d b m a h =
    rw
      (fill_words-filled n (d + 4) b (store_word m d (word_of b)) a h, store_word-word_of m d b a h)
      (ground arith)

-- `memset` sets exactly the `n` bytes from `dst` on, to the low byte of `c`, by words or by bytes.
pub memset-filled :
    (dst c n : ℕ) (m : Memory) (a : ℕ)
    → memset dst c n m a ≡ (if leb dst a && ltb a (dst + n) then c % 256 else m a)
unfolding memset
memset-filled dst c n m a = elim (Bool-cases ((dst % 4 == 0) && (n % 4 == 0))) [
  | inl words ↦ rw (words, fill_words-filled (n / 4) dst (c % 256) m a (omega arith)) (ground arith)
  | inr bytes ↦ rw (bytes, fill_bytes-filled n dst c m a)
]
