-- ===== src/Syscall/Within.antt =====
-- The arguments that syscall.c accepts lie in the memory of the process.
use a.Base.{
  ℕ, zero, suc, ◌+◌, ◌-◌, ◌^◌, ◌≤◌, ◌<◌, ◌≡◌, refl, ap, ◌∙◌, ◌≢◌, ◌↔◌, inl, inr, Option, none, some,
  arith, leb, ◌==◌, ==_iff, Bool-cases, Option-cases, subst,
}
use a.Syscall.{User, str_loop, fetchstr, argint, argptr}

-- `argptr`, in a process whose memory ends below the kernel's half of the address space, accepts
-- exactly an argument that can be fetched and is a pointer into the process's memory to a block of
-- non-negative size that ends in it.
pub argptr_iff :
    (u : User) (n size p : ℕ)
    → u.sz ≤ 2 ^ 31
    → (argptr u n size ≡ some p)
      ↔ ((argint u n ≡ some p) × (size < 2 ^ 31) × (p < u.sz) × (p + size ≤ u.sz))
unfolding argptr
argptr_iff u n size p low = elim (Option-cases (argint u n)) [
  | inl e ↦ (rw e (λ h. absurd cc), λ h. absurd (let q = h.0 in cc))
  | inr (i, e) ↦ (
    (λ h. (ground arith, ground arith, ground arith, ground arith)),
    (λ h. let a = h.0 in let b = h.1 in let c = h.2 in let d = h.3 in ground arith),
  )
]

-- The bytes of a string, and what follows them.
pub record IsStr (byte : ℕ → ℕ) (s n : ℕ) : Type 0 where
  pub nul : byte (s + n) ≡ 0
  pub before : (i : ℕ) → i < n → byte (s + i) ≢ 0

abbrev StrOk : (ℕ → ℕ) → ℕ → ℕ → Option ℕ → Type 0
StrOk byte n s none = (i : ℕ) → i < n → byte (s + i) ≢ 0
StrOk byte n s (some m) = (m < n) × IsStr byte s m

StrOk-suc :
    (byte : ℕ → ℕ) (n s : ℕ) (o : Option ℕ)
    → byte s ≢ 0
    → StrOk byte n (s + 1) o
    → StrOk byte (suc n) s (elim o [ none ↦ none | some m ↦ some (m + 1) ])
StrOk-suc byte n s none ne h = go
  where
    go : (i : ℕ) → i < suc n → byte (s + i) ≢ 0
    go zero lt = let z : s + 0 ≡ s = omega arith in rw z ne
    go (suc i) lt = let z : s + suc i ≡ s + 1 + i = omega arith in rw z (h i (omega arith))
StrOk-suc byte n s (some m) ne (lt, h) = (
  omega (arith, lt),
  record { nul = (let z : s + (m + 1) ≡ s + 1 + m = omega arith in rw z h.nul); before = go },
)
  where
    go : (i : ℕ) → i < m + 1 → byte (s + i) ≢ 0
    go zero lt' = let z : s + 0 ≡ s = omega arith in rw z ne
    go (suc i) lt' = let z : s + suc i ≡ s + 1 + i = omega arith in rw z (h.before i (omega arith))

str_loop-StrOk : (byte : ℕ → ℕ) (n s : ℕ) → StrOk byte n s (str_loop byte n s)
unfolding str_loop
str_loop-StrOk byte zero s = λ i lt. absurd (omega arith)
str_loop-StrOk byte (suc n) s = elim (Bool-cases (byte s == 0)) [
  | inl t ↦
      let z : s + 0 ≡ s = omega arith in
      let e : byte (s + 0) ≡ 0 = ap byte z ∙ (==_iff (byte s) 0).0 t in
      rw t (omega arith, record { nul = e; before = λ i lt. absurd (omega arith) })
  | inr t ↦
      rw t (
        StrOk-suc byte n s (str_loop byte n (s + 1)) (ground arith) (str_loop-StrOk byte n (s + 1)))
]

-- What `fetchstr` of `addr` may return.
abbrev pub FetchOk : User → ℕ → Option (ℕ × ℕ) → Type 0
FetchOk u addr none = (i : ℕ) → addr + i < u.sz → u.byte (addr + i) ≢ 0
FetchOk u addr (some (p, n)) = (p ≡ addr) × (addr + n < u.sz) × IsStr u.byte addr n

-- `fetchstr` returns the address and the length of the string at `addr` if its nul lies in the
-- process's memory, and fails if there is no nul from `addr` to the end of that memory.
pub fetchstr-FetchOk : (u : User) (addr : ℕ) → FetchOk u addr (fetchstr u addr)
unfolding fetchstr
fetchstr-FetchOk u addr = elim (Bool-cases (leb u.sz addr)) [
  | inl t ↦ rw t (λ i lt. absurd (ground arith))
  | inr t ↦
      let h = str_loop-StrOk u.byte (u.sz - addr) addr in
      elim (Option-cases (str_loop u.byte (u.sz - addr) addr)) [
        | inl e ↦
            let g = subst (StrOk u.byte (u.sz - addr) addr) e h in
            rw (t, e) (λ i lt. g i (omega arith))
        | inr (n, e) ↦
            let g = subst (StrOk u.byte (u.sz - addr) addr) e h in
            let l = g.0 in rw (t, e) (refl, omega arith, g.1)
      ]
]
