-- ===== src/Console/Screen.antt =====
-- cgaputc of console.c: the text screen of 25 lines of 80 cells, of which the last is not used.
use a.Base.{
  ℕ, zero, suc, ◌+◌, ◌-◌, ◌*◌, ◌/◌, ◌%◌, ◌≤◌, ◌<◌, ◌≡◌, refl, ap, ◌∙◌, inl, inr, List, ◌++◌, arith,
  ltb, leb, ◌==◌, if◌then◌else◌, Bool-cases, length, set, take, drop, replicate, Outcome, ok, panic,
  length-set, length-append, length-take, length-drop,
}

-- The screen memory, in cells of 16 bits, and the cursor, which the registers of the port hold.
pub record Screen : Type 0 where
  pub crt : List ℕ
  pub pos : ℕ

-- `memmove(crt, crt+80, ...)` of 23 lines, and zeros from the cursor to the end of line 24.
unfoldable pub scroll : Screen → Screen
scroll s =
    let pos = s.pos - 80 in
    let moved = take (23 * 80) (drop 80 s.crt) ++ drop (23 * 80) s.crt in
    record {
      crt = take pos moved ++ replicate (24 * 80 - pos) 0 ++ drop (24 * 80) moved;
      pos = pos;
    }

-- The cursor's move, and the cell written, for a character or BACKSPACE.
unfoldable pub place : ℕ → Screen → Screen
place c s =
    if c == b'\n'
    then record s { pos = s.pos + (80 - s.pos % 80) }
    else if c == 0x100
    then record s { pos = s.pos - 1 }
    else record s { crt = set s.crt s.pos (c % 256 + 0x700); pos = s.pos + 1 }

unfoldable pub cgaputc : ℕ → Screen → Outcome Screen
cgaputc c s =
    let s' = place c s in
    if ltb (25 * 80) s'.pos
    then panic
    else (let t = if leb 24 (s'.pos / 80) then scroll s' else s' in
        ok (record t { crt = set t.crt t.pos (b' ' + 0x700) }))

pub record IsScreen (s : Screen) : Type 0 where
  pub size : length s.crt ≡ 25 * 80
  pub above : s.pos < 24 * 80

length-replicate : (n x : ℕ) → length (replicate n x) ≡ n
length-replicate zero x = refl
length-replicate (suc n) x = ap suc (length-replicate n x)

scroll-IsScreen :
    (s : Screen) → length s.crt ≡ 2000 → 1920 ≤ s.pos → s.pos < 2000 → IsScreen (scroll s)
unfolding scroll
scroll-IsScreen s size low high =
    let moved = take 1840 (drop 80 s.crt) ++ drop 1840 s.crt in
    let a = length-take 1840 (drop 80 s.crt) (omega (arith, length-drop 80 s.crt)) in
    let b = length-append (take 1840 (drop 80 s.crt)) (drop 1840 s.crt) in
    let c = length-drop 1840 s.crt in
    let m : length moved ≡ 2000 = omega arith in
    let d = length-take (s.pos - 80) moved (omega arith) in
    let e = length-replicate (1920 - (s.pos - 80)) 0 in
    let f = length-drop 1920 moved in
    let g =
      length-append (take (s.pos - 80) moved ++ replicate (1920 - (s.pos - 80)) 0)
        (drop 1920 moved) in
    let h = length-append (take (s.pos - 80) moved) (replicate (1920 - (s.pos - 80)) 0) in
    record { size = omega arith; above = omega arith }

place_bounds :
    (c : ℕ) (s : Screen) → IsScreen s → (length (place c s).crt ≡ 2000) × ((place c s).pos < 2000)
unfolding place
place_bounds c s v =
    let a = v.size in
    let b = v.above in
    let l = length-set s.crt s.pos (c % 256 + 0x700) in (ground arith, ground arith)

-- From a screen of 2000 cells with the cursor in its first 24 lines, every character leaves such a
-- screen, scrolled by a line if the cursor moved on to the last line; `cgaputc` does not panic.
pub cgaputc-IsScreen :
    (c : ℕ) (s : Screen) → IsScreen s → (s' : Screen) × (cgaputc c s ≡ ok s') × IsScreen s'
unfolding cgaputc
cgaputc-IsScreen c s v =
    let (size, move) = place_bounds c s v in
    elim (Bool-cases (leb 24 ((place c s).pos / 80))) [
      | inl t ↦
          let u = scroll-IsScreen (place c s) size (ground arith) (omega arith) in
          let l = length-set (scroll (place c s)).crt (scroll (place c s)).pos (b' ' + 0x700) in
          (
            record (scroll (place c s)) {
              crt = set (scroll (place c s)).crt (scroll (place c s)).pos (b' ' + 0x700);
            },
            ground arith,
            record { size = l ∙ u.size; above = u.above },
          )
      | inr t ↦
          let l = length-set (place c s).crt (place c s).pos (b' ' + 0x700) in
          (
            record (place c s) { crt = set (place c s).crt (place c s).pos (b' ' + 0x700) },
            ground arith,
            record { size = l ∙ size; above = ground arith },
          )
    ]
