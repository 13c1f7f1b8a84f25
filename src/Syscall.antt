-- ===== src/Syscall.antt =====
-- syscall.c: fetching the arguments of system calls from user memory.
pub mod Within
use a.Base.{
  ℕ, zero, suc, ◌+◌, ◌-◌, ◌*◌, ◌/◌, ◌%◌, ◌^◌, ◌≤◌, ◌<◌, min, ◌≡◌, refl, sym, ap, ap₂, ◌∙◌, fun_ext,
  ◌≢◌, ◌↔◌, ◌⊎◌, inl, inr, Bool, true, false, ◌&&◌, ◌||◌, not, Option, none, some, List, [], ◌∷◌,
  ◌++◌, map, arith, ltb, leb, ◌==◌, if◌then◌else◌, ==_iff, Bool-cases, Option-cases, length,
  get_elem?, set, take, drop, replicate, modify, All, Outcome, ok, panic, fault, ◌>>=◌, ℤ, pos,
  negsuc, minus_one,
}

-- The user's side of a system call: the size of its memory `curproc->sz`, its stack pointer
-- `tf->esp`, and its memory, read by bytes and by 32-bit words.
pub record User : Type 0 where
  pub sz : ℕ
  pub esp : ℕ
  pub byte : ℕ → ℕ
  pub word : ℕ → ℕ

-- `none` stands for the return value -1. Addresses are `uint`s.
unfoldable pub fetchint : User → ℕ → Option ℕ
fetchint u addr =
    if leb u.sz addr || ltb u.sz ((addr + 4) % 2 ^ 32) then none else some (u.word addr)

-- The loop of `fetchstr`, `n` bytes from `s` on: the number of bytes before the nul.
unfoldable pub str_loop : (ℕ → ℕ) → ℕ → ℕ → Option ℕ
str_loop byte zero s = none
str_loop byte (suc n) s =
    let rest = str_loop byte n (s + 1) in
    if byte s == 0 then some 0 else elim rest [ none ↦ none | some m ↦ some (m + 1) ]

-- The pointer and the length.
unfoldable pub fetchstr : User → ℕ → Option (ℕ × ℕ)
fetchstr u addr =
    if leb u.sz addr
    then none
    else elim (str_loop u.byte (u.sz - addr) addr) [ none ↦ none | some n ↦ some (addr, n) ]

unfoldable pub argint : User → ℕ → Option ℕ
argint u n = fetchint u ((u.esp + 4 + 4 * n) % 2 ^ 32)

-- `size` is a C `int`, as its 32-bit pattern.
unfoldable pub argptr : User → ℕ → ℕ → Option ℕ
argptr u n size = elim (argint u n) [
  | none ↦ none
  | some i ↦
      if leb (2 ^ 31) size || leb u.sz i || ltb u.sz ((i + size) % 2 ^ 32) then none else some i
]

unfoldable pub argstr : User → ℕ → Option (ℕ × ℕ)
argstr u n = elim (argint u n) [ none ↦ none | some addr ↦ fetchstr u addr ]
