-- ===== src/Console/Indices.antt =====
-- The indices of the console's input buffer, in console.c.
use a.Base.{
  ℕ, zero, suc, ◌+◌, ◌%◌, ◌^◌, ◌≤◌, ◌<◌, ◌≡◌, refl, ◌∙◌, inl, inr, Bool, true, false, ◌&&◌, ◌||◌,
  not, List, [], ◌∷◌, arith, ltb, ◌==◌, if◌then◌else◌, Bool-cases, length, ok, get_or, length-set,
}
use a.Console.{
  control, input_buf, Input, minus, erase, kill_line, enter, consoleintr, intr_char, intr_loop,
  acquire, release,
}

-- From `r` on come the bytes to read, up to `w`, then those being edited, up to `e`: in all no more
-- than the buffer holds.
pub record IsInput (k : Input) : Type 0 where
  pub size : length k.buf ≡ input_buf
  pub small : (k.r < 2 ^ 32) × (k.w < 2 ^ 32) × (k.e < 2 ^ 32)
  pub readable : minus k.w k.r ≤ minus k.e k.r
  pub fits : minus k.e k.r ≤ input_buf

erase-IsInput : (k : Input) → IsInput k → (k.e == k.w) ≡ false → IsInput (erase k)
unfolding erase
erase-IsInput k v ne =
    let (a, b, c) = v.small in
    let d = v.readable in
    let f = v.fits in
    record {
      size = v.size;
      small = (a, b, omega arith);
      readable = ground arith;
      fits = ground arith;
    }

kill_line-IsInput : (n : ℕ) (k : Input) → IsInput k → IsInput (kill_line n k)
unfolding kill_line
kill_line-IsInput zero k v = v
kill_line-IsInput (suc n) k v =
    elim (Bool-cases (k.e == k.w || get_or k.buf (minus k.e 1 % input_buf) 0 == b'\n')) [
      | inl t ↦ rw t v
      | inr t ↦ rw t (kill_line-IsInput n (erase k) (erase-IsInput k v (ground arith)))
    ]

enter-IsInput :
    (c : ℕ) (k : Input) → IsInput k → ltb (minus k.e k.r) input_buf ≡ true → IsInput (enter c k)
unfolding enter
enter-IsInput c k v room =
    let (a, b, c') = v.small in
    let d = v.readable in
    let f = v.fits in
    let s = v.size in
    let ch = if c == b'\r' then b'\n' else c in
    let l = length-set k.buf (k.e % input_buf) ch in
    elim (Bool-cases
      (ch == b'\n' || ch == control b'D' || (k.e + 1) % 2 ^ 32 == (k.r + input_buf) % 2 ^ 32)) [
        | inl t ↦ rw t (record {
          size = l ∙ s;
          small = (a, omega arith, omega arith);
          readable = omega arith;
          fits = ground arith;
        })
        | inr t ↦ rw t (record {
          size = l ∙ s;
          small = (a, b, omega arith);
          readable = ground arith;
          fits = ground arith;
        })
      ]

intr_char-IsInput : (c : ℕ) (k : Input) → IsInput k → IsInput (intr_char c k).1
unfolding intr_char
intr_char-IsInput c k v =
    let a = kill_line-IsInput (minus k.e k.w) k v in
    let room = ltb (minus k.e k.r) input_buf in
    elim (Bool-cases (c == control b'P')) [
      | inl p ↦ rw p v
      | inr np ↦ elim (Bool-cases (c == control b'U')) [
        | inl p ↦ rw (np, p) a
        | inr nu ↦ elim (Bool-cases (c == control b'H' || c == 0x7f)) [
          | inl p ↦ elim (Bool-cases (k.e == k.w)) [
            | inl q ↦ rw (np, nu, p, q) v
            | inr q ↦ rw (np, nu, p, q) (erase-IsInput k v q)
          ]
          | inr nh ↦ elim (Bool-cases (not (c == 0) && ltb (minus k.e k.r) input_buf)) [
            | inl p ↦ rw (np, nu, nh, p) (enter-IsInput c k v (ground arith))
            | inr p ↦ rw (np, nu, nh, p) v
          ]
        ]
      ]
    ]

intr_loop-IsInput :
    (cs : List ℕ) (dump : Bool) (k : Input) → IsInput k → IsInput (intr_loop cs dump k).1
unfolding intr_loop
intr_loop-IsInput [] dump k v = v
intr_loop-IsInput (c ∷ cs) dump k v =
    intr_loop-IsInput cs (dump || (intr_char c k).0) (intr_char c k).1 (intr_char-IsInput c k v)

kill_line-lock : (n : ℕ) (k : Input) → (kill_line n k).lock ≡ k.lock
unfolding kill_line erase
kill_line-lock zero k = refl
kill_line-lock (suc n) k = ground (arith, kill_line-lock n (erase k))

intr_char-lock : (c : ℕ) (k : Input) → (intr_char c k).1.lock ≡ k.lock
unfolding intr_char enter erase
intr_char-lock c k = ground (arith, kill_line-lock (minus k.e k.w) k)

intr_loop-lock : (cs : List ℕ) (dump : Bool) (k : Input) → (intr_loop cs dump k).1.lock ≡ k.lock
unfolding intr_loop
intr_loop-lock [] dump k = refl
intr_loop-lock (c ∷ cs) dump k =
    intr_loop-lock cs (dump || (intr_char c k).0) (intr_char c k).1 ∙ intr_char-lock c k

-- A call of `consoleintr` that can take `cons.lock` returns with it released and with the indices of
-- the input buffer in order: no more bytes to read than bytes held, and no more of these than the
-- buffer has places for.
pub consoleintr-IsInput :
    (cs : List ℕ) (k : Input)
    → IsInput k
    → k.lock ≡ false
    → (dump : Bool) × (k' : Input) × (consoleintr cs k ≡ ok (dump, k'))
      × IsInput k'
      × (k'.lock ≡ false)
unfolding consoleintr acquire release
consoleintr-IsInput cs k v u =
    let k1 = record k { lock = true } in
    let w =
      intr_loop-IsInput cs false k1
        (record { size = v.size; small = v.small; readable = v.readable; fits = v.fits }) in
    let l = intr_loop-lock cs false k1 in
    let r = intr_loop cs false k1 in
    (
      r.0,
      record (r.1) { lock = false },
      rw (u, l) refl,
      record { size = w.size; small = w.small; readable = w.readable; fits = w.fits },
      refl,
    )
