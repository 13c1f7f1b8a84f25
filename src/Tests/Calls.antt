-- ===== src/Tests/Calls.antt =====
-- The arguments of system calls of syscall.c at fixed inputs.
use a.Base.{◌-◌, ◌≡◌, refl, some, ◌==◌, if◌then◌else◌}
use a.Syscall.{User, fetchint, fetchstr, argint, argptr}
use a.Syscall.Within.{FetchOk, fetchstr-FetchOk}

-- The third word of the stack is the pointer 16; the bytes from 16 on are 16, 15, ..., 0.
abbrev user0 : User
user0 = record { sz = 4096; esp = 100; byte = λ a. 32 - a; word = λ a. if a == 108 then 16 else 0 }

argptr-user0 : argptr user0 1 40 ≡ some 16
unfolding argptr argint fetchint
argptr-user0 = refl

fetchstr-FetchOk_example : FetchOk user0 16 (fetchstr user0 16)
fetchstr-FetchOk_example = fetchstr-FetchOk user0 16
