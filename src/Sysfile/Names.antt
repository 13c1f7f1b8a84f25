-- ===== src/Sysfile/Names.antt =====
-- sysfile.c: the name under which sys_open looks a path up.
use a.Base.{ℕ, ◌+◌, ◌%◌, List, [], ◌∷◌, ◌++◌, ◌==◌, if◌then◌else◌}

-- The character for container `n`.
abbrev pub map : ℕ → ℕ
map n = if n == 0 then 0 else (b'0' + n) % 256

-- `newPath` of `sys_open`, a string, from the path and the container of the process. What follows a NUL
-- is not part of it.
unfoldable pub open_path : ℕ → List ℕ → List ℕ
open_path cid [] = if map cid == 0 then [] else map cid ∷ []
open_path cid (c ∷ cs) =
    if c == b'.' then b'.' ∷ [] else if map cid == 0 then c ∷ cs else c ∷ cs ++ map cid ∷ []
