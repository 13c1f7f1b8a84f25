-- ===== src/Tests/Open.antt =====
-- The file table of file.c at fixed inputs.
use a.Base.{true, false, [], ◌∷◌}
use a.Files.{fd_none, fd_pipe, File, Ftable}

abbrev pipe_end : File
pipe_end = record {
  type = fd_pipe;
  ref = 1;
  readable = true;
  writable = false;
  pipe = 77;
  ip = 0;
  off = 0;
}

abbrev ftable0 : Ftable
ftable0 = record {
  lock = false;
  file = pipe_end ∷ record pipe_end { type = fd_none; ref = 0 } ∷ [];
}
