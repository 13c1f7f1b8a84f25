-- ===== src/Tests/Strings.antt =====
-- string.c at fixed inputs.
use a.Base.{ℕ, ◌≡◌, refl, List, [], ◌∷◌, map, ok, pos, negsuc}
use a.Str.{Memory, strncmp, safestrcpy, memmove, memcmp}
use a.Str.Move.{memmove-moved}

abbrev cat_name : List ℕ
cat_name = b'c' ∷ b'a' ∷ b't' ∷ 0 ∷ []

abbrev car_name : List ℕ
car_name = b'c' ∷ b'a' ∷ b'r' ∷ 0 ∷ []

-- memory in which every byte is its own address
abbrev count_up : Memory
count_up a = a

strncmp_differs : strncmp cat_name car_name 4 ≡ ok (pos 2)
unfolding strncmp
strncmp_differs = refl

memcmp_less : memcmp car_name cat_name 4 ≡ ok (negsuc 1)
unfolding memcmp
memcmp_less = refl

memmove_overlap :
    map (memmove 11 10 3 count_up) (10 ∷ 11 ∷ 12 ∷ 13 ∷ 14 ∷ []) ≡ 10 ∷ 10 ∷ 11 ∷ 12 ∷ 14 ∷ []
unfolding memmove
memmove_overlap = refl

safestrcpy_runs : safestrcpy (9 ∷ 9 ∷ 9 ∷ 9 ∷ 9 ∷ []) cat_name 3 ≡ ok (b'c' ∷ b'a' ∷ 0 ∷ 9 ∷ 9 ∷ [])
unfolding safestrcpy
safestrcpy_runs = refl

memmove-moved_example : memmove 11 10 3 count_up 12 ≡ 11
memmove-moved_example = memmove-moved 11 10 3 count_up 12
