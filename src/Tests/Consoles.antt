-- ===== src/Tests/Consoles.antt =====
-- The console at fixed inputs.
use a.Base.{ℕ, ◌-◌, ◌*◌, ◌^◌, ◌≡◌, refl, Bool, false, List, [], ◌∷◌, arith, replicate, ok}
use a.Console.{Input, input_buf, consoleintr, consoleread, control, ReadEnd}
use a.Console.Indices.{IsInput, consoleintr-IsInput}
use a.Console.Reading.{consoleread-Reads}
use a.Console.Window.{Reads}
use a.Console.Screen.{Screen, IsScreen}

-- Three bytes, a line of two and a byte more, with indices that wrapped around.
abbrev input0 : Input
input0 = record {
  lock = false;
  buf = replicate input_buf 97;
  r = 2 ^ 32 - 1;
  w = 1;
  e = 2;
  echoed = [];
  wakeups = 0;
}

input0-IsInput : IsInput input0
input0-IsInput = record {
  size = refl;
  small = (omega arith, omega arith, omega arith);
  readable = omega arith;
  fits = omega arith;
}

abbrev keys : List ℕ
keys = b'h' ∷ control b'U' ∷ b'i' ∷ b'\n' ∷ []

consoleintr-IsInput_example :
    (dump : Bool) × (k' : Input) × (consoleintr keys input0 ≡ ok (dump, k'))
    × IsInput k'
    × (k'.lock ≡ false)
consoleintr-IsInput_example = consoleintr-IsInput keys input0 input0-IsInput refl

consoleread-Reads_example :
    (e : ReadEnd) × (consoleread false [] 5 input0 ≡ ok e) × Reads [] 5 false input0 e
consoleread-Reads_example = consoleread-Reads false [] 5 input0 input0-IsInput refl

-- The cursor at the end of line 24.
abbrev screen0 : Screen
screen0 = record { crt = replicate (25 * 80) 0; pos = 24 * 80 - 1 }

screen0-IsScreen : IsScreen screen0
screen0-IsScreen = record { size = refl; above = omega arith }
