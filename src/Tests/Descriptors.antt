-- ===== src/Tests/Descriptors.antt =====
-- The system calls on files at fixed inputs.
use a.Base.{ℕ, ℤ, pos, ◌↔◌, ◌≡◌, refl, true, false, none, some, List, [], ◌∷◌, arith, replicate, ok}
use a.Fs.{Inode}
use a.Files.{File, fd_inode}
use a.Sysfile.{Sys, Parts}
use a.Sysfile.Isolation.{IsName, open_path-namecmp, open_path-cut}
use a.Fs.Path.{skipelem}
use a.Fs.Dir.{namecmp}
use a.Sysfile.Names.{open_path}

-- A process of container 2 that has a file of container 1 open as descriptor 0.
abbrev node : Inode
node = record {
  dev = 1;
  inum = 5;
  ref = 1;
  locked = false;
  valid = true;
  type = 2;
  major = 0;
  minor = 0;
  nlink = 1;
  size = 0;
  addrs = replicate 13 0;
  container_id = 1;
}

abbrev file0 : File
file0 = record {
  type = fd_inode;
  ref = 1;
  readable = true;
  writable = true;
  pipe = 0;
  ip = 0;
  off = 0;
}

abbrev sys0 : Sys
sys0 = record {
  fs = record {
    sb = record {
      size = 0;
      nblocks = 0;
      ninodes = 0;
      nlog = 0;
      logstart = 0;
      inodestart = 0;
      bmapstart = 0;
    };
    cell = λ b off. 0;
    logged = [];
    icache_lock = false;
    inode = node ∷ [];
  };
  files = record { lock = false; file = file0 ∷ [] };
  ofile = some 0 ∷ none ∷ none ∷ [];
  cwd = 0;
  container_id = 2;
}

abbrev parts0 : Parts
parts0 = record {
  devsw = record { read = λ major. none; write = λ major. none };
  begin_op = ok;
  end_op = ok;
  pipeclose = λ p w s. ok s;
  piperead = λ p n s. ok (none, s);
  pipewrite = λ p src s. ok (none, s);
  stack = replicate 14 0;
}

-- "log" in container 3
abbrev log_path : List ℕ
log_path = 108 ∷ 111 ∷ 103 ∷ []

-- Every path that starts with a dot is looked up as the directory ".".
open_path-dot : open_path 3 (46 ∷ 47 ∷ log_path) ≡ 46 ∷ []
unfolding open_path
open_path-dot = refl

log_path-IsName : IsName log_path
log_path-IsName = record {
  chars =
      ((omega arith, omega arith), ((omega arith, omega arith), ((omega arith, omega arith), tt)));
  named = omega arith;
  plain = omega arith;
}

open_path-namecmp_example :
    (r : List ℕ) × (s : List ℕ) × (z : ℤ) × (skipelem (open_path 3 log_path) (replicate 14 0)
      ≡ some ([], r))
    × (skipelem (open_path 4 log_path) (replicate 14 7) ≡ some ([], s))
    × (namecmp r s ≡ ok z)
    × ((z ≡ pos 0) ↔ ((◌≡◌ {A = ℕ} 3 4) × (log_path ≡ log_path)))
open_path-namecmp_example =
    open_path-namecmp 3 4 log_path (replicate 14 0) (replicate 14 7)
      (record { other = omega arith; small = omega arith })
      (record { other = omega arith; small = omega arith }) log_path-IsName log_path log_path-IsName
      (omega arith) (omega arith)

-- "experiment.log", of 14 characters
abbrev long_path : List ℕ
long_path = 101 ∷ 120 ∷ 112 ∷ 101 ∷ 114 ∷ 105 ∷ 109 ∷ 101 ∷ 110 ∷ 116 ∷ 46 ∷ 108 ∷ 111 ∷ 103 ∷ []

long_path-IsName : IsName long_path
long_path-IsName = record {
  chars =
      ((
        (omega arith, omega arith),
        (
          (omega arith, omega arith),
          (
            (omega arith, omega arith),
            (
              (omega arith, omega arith),
              (
                (omega arith, omega arith),
                (
                  (omega arith, omega arith),
                  (
                    (omega arith, omega arith),
                    (
                      (omega arith, omega arith),
                      (
                        (omega arith, omega arith),
                        (
                          (omega arith, omega arith),
                          (
                            (omega arith, omega arith),
                            (
                              (omega arith, omega arith),
                              ((omega arith, omega arith), ((omega arith, omega arith), tt)),
                            ),
                          ),
                        ),
                      ),
                    ),
                  ),
                ),
              ),
            ),
          ),
        ),
      ));
  named = omega arith;
  plain = omega arith;
}

open_path-cut_example :
    (r : List ℕ) × (s : List ℕ) × (skipelem (open_path 1 long_path) (replicate 14 0) ≡ some ([], r))
    × (skipelem (open_path 2 long_path) (replicate 14 7) ≡ some ([], s))
    × (namecmp r s ≡ ok (pos 0))
open_path-cut_example =
    open_path-cut 1 2 long_path (replicate 14 0) (replicate 14 7)
      (record { other = omega arith; small = omega arith })
      (record { other = omega arith; small = omega arith }) long_path-IsName (omega arith)
