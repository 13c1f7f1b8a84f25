-- ===== src/Console/Reading.antt =====
-- `consoleread` of console.c: which bytes of the input buffer it returns, and what it leaves there.
use mathlib.Core.List.{append_assoc, append-nil}
use a.Base.{
  ℕ, zero, suc, ◌+◌, ◌%◌, ◌^◌, ◌<◌, ◌≡◌, refl, sym, ap, ap₂, ◌∙◌, ◌≢◌, inl, inr, Bool, true, false,
  List, [], ◌∷◌, ◌++◌, arith, ltb, ◌==◌, ==_iff, Bool-cases, length, ok, get_or,
}
use a.Console.{
  control, input_buf, Input, minus, acquire, ReadEnd, release, got, read_killed, read_loop,
  read_asleep, consoleread,
}
use a.Console.Indices.{IsInput}
use a.Console.Window.{
  window, next, after, Plain, Stops, filled, line, cut, nothing, dies, sleeps, left, Reads,
}

unlocked-IsInput : (k : Input) → IsInput k → IsInput (record k { lock = false })
unlocked-IsInput k v = record {
  size = v.size;
  small = v.small;
  readable = v.readable;
  fits = v.fits;
}

-- One byte is read.
advance-IsInput :
    (k : Input) → IsInput k → (k.r == k.w) ≡ false → IsInput (record k { r = (k.r + 1) % 2 ^ 32 })
advance-IsInput k v ne =
    let (a, b, c) = v.small in
    let d = v.readable in
    let f = v.fits in
    record {
      size = v.size;
      small = (omega arith, b, c);
      readable = ground arith;
      fits = ground arith;
    }

after-zero : (k : Input) → IsInput k → record k { lock = false } ≡ after 0 k
after-zero k v =
    let s = v.small.0 in
    let z : k.r ≡ (k.r + 0) % 2 ^ 32 = omega arith in ap (λ x. record k { r = x; lock = false }) z

module _ (k : Input) where
  abbrev k' : Input
  k' = record k { r = (k.r + 1) % 2 ^ 32 }

  abbrev c : ℕ
  c = get_or k.buf (k.r % input_buf) 0

  next-k' : (m : ℕ) → next k' m ≡ next k (suc m)
  next-k' m =
      let z : ((k.r + 1) % 2 ^ 32 + m) % 2 ^ 32 ≡ (k.r + suc m) % 2 ^ 32 = omega arith in
      ap (λ x. get_or k.buf (x % input_buf) 0) z

  next-first : IsInput k → next k 0 ≡ c
  next-first v =
      let s = v.small.0 in
      let z : (k.r + 0) % 2 ^ 32 ≡ k.r = omega arith in ap (λ x. get_or k.buf (x % input_buf) 0) z

  after-k' : (m : ℕ) → after m k' ≡ after (suc m) k
  after-k' m =
      let z : ((k.r + 1) % 2 ^ 32 + m) % 2 ^ 32 ≡ (k.r + suc m) % 2 ^ 32 = omega arith in
      ap (λ x. record k { r = x; lock = false }) z

  window-snoc :
      (bytes : List ℕ) (m : ℕ)
      → (bytes ++ (c ∷ [])) ++ window k'.buf k'.r m ≡ bytes ++ window k.buf k.r (suc m)
  unfolding window
  window-snoc bytes m = append_assoc bytes (c ∷ []) (window k'.buf k'.r m)

  minus-k' : IsInput k → (k.r == k.w) ≡ false → minus k.w k.r ≡ minus k'.w k'.r + 1
  minus-k' v ne = let (a, b, d) = v.small in ground arith

  length-snoc : (bytes : List ℕ) → length (bytes ++ (c ∷ [])) ≡ length bytes + 1
  length-snoc [] = refl
  length-snoc (x ∷ xs) = let h = length-snoc xs in omega arith

  module _ (v : IsInput k) (ne : (k.r == k.w) ≡ false) where
    -- One plain byte more comes first.
    Stops-suc :
        (bytes : List ℕ) (n : ℕ) (killed : Bool) (m : ℕ) (e : ReadEnd)
        → Stops (bytes ++ (c ∷ [])) n killed k' m e
        → Stops bytes (suc n) killed k (suc m) e
    Stops-suc bytes n killed m e (filled a q) =
        filled (ap suc a) (q ∙ ap₂ got (window-snoc bytes m) (after-k' m))
    Stops-suc bytes n killed m e (line a b x q) =
        let d = minus-k' v ne in
        line (omega arith) (omega arith) (sym (next-k' m) ∙ x)
          (q ∙ ap₂ got (window-snoc bytes (suc m)) (after-k' (suc m)))
    Stops-suc bytes n killed m e (cut a b x p q) =
        let d = minus-k' v ne in
        cut (omega arith) (omega arith) (sym (next-k' m) ∙ x) (omega arith)
          (q ∙ ap₂ got (window-snoc bytes m) (after-k' m))
    Stops-suc bytes n killed m e (nothing a b x p q) =
        let d = length-snoc bytes in absurd (omega arith)
    Stops-suc bytes n killed m e (dies a b x q) =
        let d = minus-k' v ne in
        dies (omega arith) (omega arith) x (q ∙ ap read_killed (after-k' m))
    Stops-suc bytes n killed m e (sleeps rest a g b x q) =
        let d = minus-k' v ne in
        sleeps rest (omega arith) (omega arith) (omega arith) x
          (q ∙ ap₂ (λ y z. read_asleep y rest z) (window-snoc bytes m) (after-k' m))

    Reads-suc :
        (bytes : List ℕ) (n : ℕ) (killed : Bool) (e : ReadEnd)
        → c ≢ control b'D'
        → c ≢ b'\n'
        → Reads (bytes ++ (c ∷ [])) n killed k' e
        → Reads bytes (suc n) killed k e
    Reads-suc bytes n killed e nd nl r = record {
      count = suc r.count;
      there = let d = minus-k' v ne in let t = r.there in omega arith;
      plain = plain;
      stops = Stops-suc bytes n killed r.count e r.stops;
      input = r.input;
    }
      where
        plain : Plain k (suc r.count)
        plain zero h = ((λ z. nd (sym (next-first v) ∙ z)), (λ z. nl (sym (next-first v) ∙ z)))
        plain (suc i) h =
            let (a, b) = r.plain i (omega arith) in
            ((λ z. a (next-k' i ∙ z)), (λ z. b (next-k' i ∙ z)))

  -- A read that stops before any byte is plain.
  Reads-zero :
      (bytes : List ℕ) (n : ℕ) (killed : Bool) (e : ReadEnd)
      → Stops bytes n killed k 0 e
      → IsInput (left e)
      → Reads bytes n killed k e
  Reads-zero bytes n killed e s i = record {
    count = 0;
    there = omega arith;
    plain = λ i h. absurd (omega arith);
    stops = s;
    input = i;
  }

abbrev locked : Input → Input
locked k = record k { lock = true }

got-nil :
    (bytes : List ℕ) (k : Input)
    → IsInput k
    → got bytes (record k { lock = false }) ≡ got (bytes ++ []) (after 0 k)
got-nil bytes k v = ap₂ got (sym (append-nil bytes)) (after-zero k v)

read_loop-Reads :
    (killed : Bool) (bytes : List ℕ) (n : ℕ) (k : Input)
    → IsInput k
    → (e : ReadEnd) × (read_loop killed bytes n (locked k) ≡ ok e) × Reads bytes n killed k e
unfolding read_loop release window
read_loop-Reads killed bytes zero k v = (
  got bytes (record k { lock = false }),
  refl,
  Reads-zero k bytes 0 killed _ (filled refl (got-nil bytes k v)) (unlocked-IsInput k v),
)
read_loop-Reads killed bytes (suc n) k v =
    let c = get_or k.buf (k.r % input_buf) 0 in
    let k' = record k { r = (k.r + 1) % 2 ^ 32 } in
    let u = unlocked-IsInput k v in
    let (sa, sb, _) = v.small in
    elim (Bool-cases (k.r == k.w)) [
      | inl t ↦
          let empty : 0 ≡ minus k.w k.r = ground arith in
          elim (Bool-cases killed) [
            | inl x ↦ (
              read_killed (record k { lock = false }),
              rw (t, x) refl,
              Reads-zero k bytes (suc n) killed _
                  (dies (omega arith) empty x (ap read_killed (after-zero k v))) u,
            )
            | inr x ↦ (
              read_asleep bytes (suc n) (record k { lock = false }),
              rw (t, x) refl,
              Reads-zero k bytes (suc n) killed _
                  (sleeps (suc n) (omega arith) (omega arith) empty x (
                    ap₂ (λ y z. read_asleep y (suc n) z) (sym (append-nil bytes)) (after-zero k v)))
                  u,
            )
          ]
      | inr t ↦
          let v' = advance-IsInput k v t in
          let u' = unlocked-IsInput k' v' in
          let some_there : 0 < minus k.w k.r = (let d = minus-k' k v t in omega arith) in
          elim (Bool-cases (c == control b'D')) [
            | inl d ↦
                let eof = next-first k v ∙ (==_iff c (control b'D')).0 d in
                elim (Bool-cases (ltb 0 (length bytes))) [
                  | inl x ↦ (
                    got bytes (record k { lock = false }),
                    rw (t, d, x) refl,
                    Reads-zero k bytes (suc n) killed _
                        (cut (omega arith) some_there eof (ground arith) (got-nil bytes k v)) u,
                  )
                  | inr x ↦ (
                    got bytes (record k' { lock = false }),
                    rw (t, d, x) refl,
                    Reads-zero k bytes (suc n) killed _
                        (nothing (omega arith) some_there eof (ground arith)
                          (ap (λ y. got y (record k' { lock = false })) (sym (append-nil bytes))))
                        u',
                  )
                ]
            | inr d ↦ elim (Bool-cases (c == b'\n')) [
              | inl x ↦ (
                got (bytes ++ (c ∷ [])) (record k' { lock = false }),
                rw (t, d, x) refl,
                Reads-zero k bytes (suc n) killed _
                    (line (omega arith) some_there (next-first k v ∙ (==_iff c b'\n').0 x) refl) u',
              )
              | inr x ↦
                  let (e, r, w) = read_loop-Reads killed (bytes ++ (c ∷ [])) n k' v' in
                  (
                    e,
                    rw (t, d, x) r,
                    Reads-suc k v t bytes n killed e (ground arith) (ground arith) w,
                  )
            ]
          ]
    ]

-- A call of `consoleread` for `n` bytes that can take `cons.lock`, with the indices in order, takes
-- bytes from the circular buffer in their order, from `r` on and not beyond `w`: those before the
-- first end of line or ^D, and it stops there. It returns them behind those it had, when they are
-- `n`; or with the end of the line; or without the ^D, which stays in the buffer if any byte is
-- returned and is taken if none is. If none of these comes before `w`, a killed process gets -1 and
-- any other sleeps, with the bytes so far in hand and the rest of `n` to get. Nothing but `r`
-- changes, the lock is released and the indices are in order.
pub consoleread-Reads :
    (killed : Bool) (bytes : List ℕ) (n : ℕ) (k : Input)
    → IsInput k
    → k.lock ≡ false
    → (e : ReadEnd) × (consoleread killed bytes n k ≡ ok e) × Reads bytes n killed k e
unfolding consoleread acquire
consoleread-Reads killed bytes n k v u =
    let (e, r, w) = read_loop-Reads killed bytes n k v in (e, rw u r, w)
