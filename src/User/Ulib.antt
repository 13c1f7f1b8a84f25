-- ===== src/User/Ulib.antt =====
-- ulib.c: the strings of the user library. A C string is the list of its bytes before the nul.
pub mod Numbers
use a.Base.{
  ℕ, zero, suc, ◌+◌, ◌-◌, ◌*◌, ◌/◌, ◌%◌, ◌^◌, ◌≤◌, ◌<◌, min, ◌≡◌, refl, sym, ap, ap₂, ◌∙◌, fun_ext,
  ◌≢◌, ◌↔◌, ◌⊎◌, inl, inr, Bool, true, false, ◌&&◌, ◌||◌, not, Option, none, some, List, [], ◌∷◌,
  ◌++◌, map, arith, ltb, leb, ◌==◌, if◌then◌else◌, ==_iff, Bool-cases, Option-cases, length,
  get_elem?, set, take, drop, replicate, modify, All, Outcome, ok, panic, fault, ◌>>=◌, ℤ, pos,
  negsuc, minus_one,
}

-- `strcpy` into the array `s`: it faults where the array ends before the nul is written.
unfoldable pub strcpy : List ℕ → List ℕ → Outcome (List ℕ)
strcpy [] t = fault
strcpy (b ∷ s) [] = ok (0 ∷ s)
strcpy (b ∷ s) (c ∷ t) = strcpy s t >>= λ s'. ok (c ∷ s')

-- `a - b`
abbrev pub difference : ℕ → ℕ → ℤ
difference a b = if leb b a then pos (a - b) else negsuc (b - a - 1)

unfoldable pub strcmp : List ℕ → List ℕ → ℤ
strcmp [] [] = pos 0
strcmp [] (d ∷ q) = difference 0 d
strcmp (c ∷ p) [] = difference c 0
strcmp (c ∷ p) (d ∷ q) = if c == d then strcmp p q else difference c d

unfoldable pub strlen : List ℕ → ℕ
strlen [] = 0
strlen (c ∷ s) = strlen s + 1

-- The string from the first `c` on. A search for the nul finds nothing.
unfoldable pub strchr : ℕ → List ℕ → Option (List ℕ)
strchr c [] = none
strchr c (b ∷ s) = if b == c then some (b ∷ s) else strchr c s

-- The loop of `gets`, with room for `n` bytes before the nul: the bytes stored, and the input left.
unfoldable pub gets_loop : ℕ → List ℕ → List ℕ × List ℕ
gets_loop zero input = ([], input)
gets_loop (suc n) [] = ([], [])
gets_loop (suc n) (c ∷ input) =
    let rest = gets_loop n input in
    if c == b'\n' || c == b'\r' then (c ∷ [], input) else (c ∷ rest.0, rest.1)

-- The bytes that `gets` puts in the buffer, the nul with them.
unfoldable pub gets : ℕ → List ℕ → List ℕ × List ℕ
unfolding gets_loop
gets max input = let r = gets_loop (max - 1) input in (r.0 ++ (0 ∷ []), r.1)

-- The loop of `atoi`; that of an `int` overflowing is undefined, so `n` does not wrap.
unfoldable pub atoi_loop : ℕ → List ℕ → ℕ
atoi_loop n [] = n
atoi_loop n (c ∷ s) = if leb b'0' c && leb c b'9' then atoi_loop (n * 10 + c - b'0') s else n

unfoldable pub atoi : List ℕ → ℕ
unfolding atoi_loop
atoi s = atoi_loop 0 s
