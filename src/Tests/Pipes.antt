-- ===== src/Tests/Pipes.antt =====
-- The pipes of pipe.c at fixed inputs.
use a.Base.{◌≡◌, refl, true, false, [], ◌∷◌, ok, replicate, arith}
use a.Pipe.{Pipe, new_pipe, WriteEnd, pipewrite, ReadEnd, piperead}
use a.Pipe.Window.{IsPipe, contents}
use a.Pipe.Transfer.{WriteOk, ReadOk, pipewrite-WriteOk, piperead-ReadOk}

abbrev pipe0 : Pipe
pipe0 = new_pipe (replicate 512 0)

pipe0-IsPipe : IsPipe pipe0
pipe0-IsPipe = record {
  size = refl;
  read_small = omega arith;
  write_small = omega arith;
  fits = omega arith;
}

-- a pipe with the counters about to wrap around, and one byte in it
abbrev pipe1 : Pipe
pipe1 = record pipe0 { buf = replicate 512 7; nread = 4294967295; nwrite = 0 }

pipe1-IsPipe : IsPipe pipe1
pipe1-IsPipe = record {
  size = refl;
  read_small = omega arith;
  write_small = omega arith;
  fits = omega arith;
}

pipewrite-WriteOk_example :
    (e : WriteEnd) × (pipewrite false 3 (1 ∷ 2 ∷ 3 ∷ []) pipe0 ≡ ok e)
    × WriteOk false 3 (contents pipe0) (1 ∷ 2 ∷ 3 ∷ []) e
pipewrite-WriteOk_example = pipewrite-WriteOk false 3 (1 ∷ 2 ∷ 3 ∷ []) pipe0 pipe0-IsPipe refl

piperead-ReadOk_example :
    (e : ReadEnd) × (piperead false 5 pipe1 ≡ ok e) × ReadOk false 5 (contents pipe1) true e
piperead-ReadOk_example = piperead-ReadOk false 5 pipe1 pipe1-IsPipe refl
