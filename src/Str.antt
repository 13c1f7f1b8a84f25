-- ===== src/Str.antt =====
-- string.c: the routines on NUL-terminated arrays, over lists of bytes, and those on raw memory, over
-- a memory that maps an address to its byte.
pub mod Copy
pub mod Compare
pub mod Move
use a.Base.{
  ℕ, zero, suc, ◌+◌, ◌-◌, ◌*◌, ◌/◌, ◌%◌, Bool, true, false, ◌&&◌, List, [], ◌∷◌, ◌==◌, ltb, leb,
  if◌then◌else◌, Outcome, ok, fault, ◌>>=◌, ℤ, pos, negsuc,
}

-- `a - b` of two bytes, as an `int`.
abbrev pub byte_diff : ℕ → ℕ → ℤ
byte_diff a b = if leb b a then pos (a - b) else negsuc (b - a - 1)

-- The loop of `memcmp`; an array that ends before `n` bytes is read out of bounds.
unfoldable pub memcmp : List ℕ → List ℕ → ℕ → Outcome ℤ
memcmp s1 s2 zero = ok (pos 0)
memcmp [] s2 (suc n) = fault
memcmp (a ∷ s1) [] (suc n) = fault
memcmp (a ∷ s1) (b ∷ s2) (suc n) = if a == b then memcmp s1 s2 n else ok (byte_diff a b)

unfoldable pub strncmp : List ℕ → List ℕ → ℕ → Outcome ℤ
strncmp p q zero = ok (pos 0)
strncmp [] q (suc n) = fault
strncmp (a ∷ p) [] (suc n) = fault
strncmp (a ∷ p) (b ∷ q) (suc n) =
    let rest = strncmp p q n in
    if a == 0 then ok (byte_diff a b) else if a == b then rest else ok (byte_diff a b)

-- The second loop of `strncpy`, which clears what is left of `n` bytes.
unfoldable pub clear : ℕ → List ℕ → Outcome (List ℕ)
clear zero s = ok s
clear (suc n) [] = fault
clear (suc n) (c ∷ s) = clear n s >>= λ s'. ok (0 ∷ s')

-- `strncpy(s, t, n)`: what the array `s` holds afterwards.
unfoldable pub strncpy : List ℕ → List ℕ → ℕ → Outcome (List ℕ)
unfolding clear
strncpy s t zero = ok s
strncpy [] t (suc n) = fault
strncpy (c ∷ s) [] (suc n) = fault
strncpy (c ∷ s) (x ∷ t) (suc n) =
    let rest = strncpy s t n in
    if x == 0 then clear n s >>= (λ s'. ok (0 ∷ s')) else rest >>= λ s'. ok (x ∷ s')

-- `*s = 0`
unfoldable pub put_nul : List ℕ → Outcome (List ℕ)
put_nul [] = fault
put_nul (c ∷ s) = ok (0 ∷ s)

-- The loop of `safestrcpy` with `n` rounds left, and the final `*s = 0`. A copied NUL moves `s` on,
-- so that the byte behind it is cleared too.
safestrcpy_loop : ℕ → List ℕ → List ℕ → Outcome (List ℕ)
unfolding put_nul
safestrcpy_loop zero s t = put_nul s
safestrcpy_loop (suc n) [] t = fault
safestrcpy_loop (suc n) (c ∷ s) [] = fault
safestrcpy_loop (suc n) (c ∷ s) (x ∷ t) =
    let rest = safestrcpy_loop n s t in (if x == 0 then put_nul s else rest) >>= λ s'. ok (x ∷ s')

-- `safestrcpy(s, t, n)`: what the array `s` holds afterwards. (A negative `n` acts as 0.)
unfoldable pub safestrcpy : List ℕ → List ℕ → ℕ → Outcome (List ℕ)
unfolding safestrcpy_loop
safestrcpy s t zero = ok s
safestrcpy s t (suc n) = safestrcpy_loop n s t

unfoldable pub strlen : List ℕ → Outcome ℕ
strlen [] = fault
strlen (c ∷ s) = let rest = strlen s in if c == 0 then ok 0 else rest >>= λ n. ok (n + 1)

abbrev pub Memory : Type 0
Memory = ℕ → ℕ

abbrev pub write : Memory → ℕ → ℕ → Memory
write m p v a = if a == p then v else m a

-- `*--d = *--s`, `n` times.
copy_down : ℕ → (d s : ℕ) → Memory → Memory
copy_down zero d s m = m
copy_down (suc n) d s m = copy_down n (d - 1) (s - 1) (write m (d - 1) (m (s - 1)))

-- `*d++ = *s++`, `n` times.
copy_up : ℕ → (d s : ℕ) → Memory → Memory
copy_up zero d s m = m
copy_up (suc n) d s m = copy_up n (d + 1) (s + 1) (write m d (m s))

-- Pointers do not wrap: C leaves the overflow of a pointer undefined.
unfoldable pub memmove : (dst src n : ℕ) → Memory → Memory
unfolding copy_down copy_up
memmove dst src n m =
    if ltb src dst && ltb dst (src + n)
    then copy_down n (dst + n) (src + n) m
    else copy_up n dst src m

-- `stosb`: `n` bytes of value `c`.
fill_bytes : ℕ → (d c : ℕ) → Memory → Memory
fill_bytes zero d c m = m
fill_bytes (suc n) d c m = fill_bytes n (d + 1) c (write m d (c % 256))

-- `stosl`: `n` words of value `w`, each stored as its four bytes, the low one first.
fill_words : ℕ → (d w : ℕ) → Memory → Memory
fill_words zero d w m = m
fill_words (suc n) d w m = fill_words n (d + 4) w (
    write (write (write (write m d (w % 256)) (d + 1) (w / 256 % 256)) (d + 2) (w / 65536 % 256))
      (d + 3) (w / 16777216 % 256))

-- `memset(dst, c, n)`; the bytes of the word that `stosl` stores do not overlap, so `|` adds them.
unfoldable pub memset : (dst c n : ℕ) → Memory → Memory
unfolding fill_bytes fill_words
memset dst c n m =
    if (dst % 4 == 0) && (n % 4 == 0)
    then fill_words (n / 4) dst (c % 256 * 16777216 + c % 256 * 65536 + c % 256 * 256 + c % 256) m
    else fill_bytes n dst c m
