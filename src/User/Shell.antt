-- ===== src/User/Shell.antt =====
-- The parser of the shell, sh.c. A pointer into the line, whose end `es` is fixed, is a place with the
-- characters from there to the end; the character at the end is the nul. `panic` is the shell's own.
pub mod Tokens
pub mod Parse
pub mod Lines
pub mod Words
pub mod Argv
use a.Base.{
  ℕ, zero, suc, ◌+◌, ◌-◌, ◌*◌, Bool, true, false, ◌&&◌, ◌||◌, not, ◌==◌, ltb, leb, if◌then◌else◌,
  Outcome, ok, panic, fault, ◌>>=◌, List, [], ◌∷◌, ◌++◌, length, drop, set, Option, none, some,
}
use a.User.Ulib.{strchr}

pub record Cursor : Type 0 where
  pub place : ℕ
  pub rest : List ℕ

-- `*s`
abbrev pub char : Cursor → ℕ
char s = elim s.rest [ [] ↦ 0 | c ∷ _ ↦ c ]

-- `s++`
abbrev pub next_char : Cursor → Cursor
next_char s = record { place = s.place + 1; rest = drop 1 s.rest }

abbrev pub whitespace : List ℕ
whitespace = b' ' ∷ b'\t' ∷ b'\r' ∷ b'\n' ∷ 11 ∷ []

abbrev pub symbols : List ℕ
symbols = b'<' ∷ b'|' ∷ b'>' ∷ b'&' ∷ b';' ∷ b'(' ∷ b')' ∷ []

-- `strchr(s, c)` as a test.
abbrev pub among : List ℕ → ℕ → Bool
among s c = elim (strchr c s) [ none ↦ false | some _ ↦ true ]

abbrev pub ordinary : ℕ → Bool
ordinary c = not (among whitespace c) && not (among symbols c)

-- `while(s < es && p(*s)) s++`
unfoldable pub skip : (ℕ → Bool) → ℕ → List ℕ → Cursor
skip p k [] = record { place = k; rest = [] }
skip p k (c ∷ cs) =
    let further = skip p (k + 1) cs in if p c then further else record { place = k; rest = c ∷ cs }

abbrev pub skip_from : (ℕ → Bool) → Cursor → Cursor
skip_from p s = skip p s.place s.rest

-- `q` and `eq` of `gettoken`, the ends of a word.
pub record Word : Type 0 where
  pub q : ℕ
  pub eq : ℕ

-- The `switch` of `gettoken`: the result, and the end of the token.
unfoldable pub token : Cursor → ℕ × Cursor
unfolding skip
token s =
    let c = char s in
    if c == 0
    then (0, s)
    else if (c == b'|') || (c == b'(') || (c == b')') || (c == b';') || (c == b'&') || (c == b'<')
    then (c, next_char s)
    else if c == b'>'
    then (if char (next_char s) == b'>' then (b'+', next_char (next_char s)) else (c, next_char s))
    else (b'a', skip_from ordinary s)

unfoldable pub gettoken : Cursor → ℕ × Word × Cursor
unfolding token
gettoken s =
    let start = skip_from (among whitespace) s in
    let (ret, end) = token start in
    (ret, record { q = start.place; eq = end.place }, skip_from (among whitespace) end)

unfoldable pub peek : List ℕ → Cursor → Bool × Cursor
unfolding skip
peek toks s =
    let s = skip_from (among whitespace) s in (not (char s == 0) && among toks (char s), s)

-- `struct cmd`; `argv` and `eargv` are the words of an `exec`, `malloc` does not fail.
pub data Cmd : Type 0 where
  exec : List Word → Cmd
  redir : Cmd → Word → ℕ → ℕ → Cmd
  pipe : Cmd → Cmd → Cmd
  list : Cmd → Cmd → Cmd
  back : Cmd → Cmd

abbrev pub max_args : ℕ
max_args = 10

-- A redirection that `parseredirs` wraps around a command.
pub record Redir : Type 0 where
  pub file : Word
  pub mode : ℕ
  pub fd : ℕ

-- The `switch` of `parseredirs`, with O_RDONLY 0, O_WRONLY 1 and O_CREATE 0x200.
abbrev pub redir_of : ℕ → Word → List Redir
redir_of tok w =
    if tok == b'<'
    then record { file = w; mode = 0; fd = 0 } ∷ []
    else if (tok == b'>') || (tok == b'+')
    then record { file = w; mode = 0x201; fd = 1 } ∷ []
    else []

unfoldable pub wrap : List Redir → Cmd → Cmd
wrap [] cmd = cmd
wrap (r ∷ rs) cmd = wrap rs (redir cmd r.file r.mode r.fd)

-- The loop of `parseredirs`: what it wraps around its command, in order.
unfoldable pub redir_loop : ℕ → Cursor → Outcome (List Redir × Cursor)
redir_loop zero s = fault
redir_loop (suc n) s =
    let (more, s) = peek (b'<' ∷ b'>' ∷ []) s in
    elim more [
      | false ↦ ok ([], s)
      | true ↦
          let (tok, _, s) = gettoken s in
          let (ret, w, s) = gettoken s in
          if not (ret == b'a')
          then panic
          else do (rs, s) ← redir_loop n s; ok (redir_of tok w ++ rs, s)
    ]

-- Every round takes a character at least.
abbrev pub parse_redirs : Cursor → Outcome (List Redir × Cursor)
parse_redirs s = redir_loop (suc (length s.rest)) s

-- The loop of `parseexec` with `argc` words so far: the other words, and what `parseredirs` wraps.
unfoldable pub args_loop : ℕ → ℕ → Cursor → Outcome (List Word × List Redir × Cursor)
args_loop zero argc s = fault
args_loop (suc n) argc s =
    let (stop, s) = peek (b'|' ∷ b')' ∷ b'&' ∷ b';' ∷ []) s in
    elim stop [
      | true ↦ ok ([], [], s)
      | false ↦
          let (tok, w, s) = gettoken s in
          if tok == 0
          then ok ([], [], s)
          else if not (tok == b'a')
          then panic
          else if leb max_args (argc + 1)
          then panic
          else do
            (rs, s) ← parse_redirs s
            (ws, rs', s) ← args_loop n (argc + 1) s
            ok (w ∷ ws, rs ++ rs', s)
    ]

-- `parseexec` of a command that is no block. The words go into one `exec`, whatever is wrapped around
-- it in between.
unfoldable pub parse_words : Cursor → Outcome (Cmd × Cursor)
parse_words s = do
  (rs, s) ← parse_redirs s
  (ws, rs', s) ← args_loop (suc (length s.rest)) 0 s
  ok (wrap (rs ++ rs') (exec ws), s)

-- The loop of `parseline` over `&`.
unfoldable pub back_loop : ℕ → Cmd → Cursor → Outcome (Cmd × Cursor)
back_loop zero cmd s = fault
back_loop (suc n) cmd s =
    let (more, s) = peek (b'&' ∷ []) s in
    elim more [
      | false ↦ ok (cmd, s)
      | true ↦ let (_, _, s) = gettoken s in back_loop n (back cmd) s
    ]

-- The functions that call each other, on fuel; `fault` if the fuel runs out.
unfoldable mutual
  pub parseline : ℕ → Cursor → Outcome (Cmd × Cursor)
  parseline zero s = fault
  parseline (suc n) s = do
    (cmd, s) ← parsepipe n s
    (cmd, s) ← back_loop (suc (length s.rest)) cmd s
    let (more, s) = peek (b';' ∷ []) s
    elim more [
      | false ↦ ok (cmd, s)
      | true ↦ let (_, _, s) = gettoken s in do (right, s) ← parseline n s; ok (list cmd right, s)
    ]

  pub parsepipe : ℕ → Cursor → Outcome (Cmd × Cursor)
  parsepipe zero s = fault
  parsepipe (suc n) s = do
    (cmd, s) ← parseexec n s
    let (more, s) = peek (b'|' ∷ []) s
    elim more [
      | false ↦ ok (cmd, s)
      | true ↦ let (_, _, s) = gettoken s in do (right, s) ← parsepipe n s; ok (pipe cmd right, s)
    ]

  pub parseblock : ℕ → Cursor → Outcome (Cmd × Cursor)
  parseblock zero s = fault
  parseblock (suc n) s =
      let (open_paren, s) = peek (b'(' ∷ []) s in
      elim open_paren [
        | false ↦ panic
        | true ↦
            let (_, _, s) = gettoken s in
            do
              (cmd, s) ← parseline n s
              let (close_paren, s) = peek (b')' ∷ []) s
              if not close_paren
                  then panic
                  else do let (_, _, s) = gettoken s; (rs, s) ← parse_redirs s; ok (wrap rs cmd, s)
      ]

  pub parseexec : ℕ → Cursor → Outcome (Cmd × Cursor)
  parseexec zero s = fault
  parseexec (suc n) s =
      let (block, s) = peek (b'(' ∷ []) s in
      elim block [ true ↦ parseblock n s | false ↦ parse_words s ]

-- `*w = 0` in the buffer of the line, whose nul counts.
abbrev pub put_nul : ℕ → List ℕ → Outcome (List ℕ)
put_nul k buf = if ltb k (length buf) then ok (set buf k 0) else fault

unfoldable pub end_words : List Word → List ℕ → Outcome (List ℕ)
end_words [] buf = ok buf
end_words (w ∷ ws) buf = put_nul w.eq buf >>= end_words ws

unfoldable pub nulterminate : Cmd → List ℕ → Outcome (List ℕ)
unfolding end_words
nulterminate (exec ws) buf = end_words ws buf
nulterminate (redir cmd w mode fd) buf = nulterminate cmd buf >>= put_nul w.eq
nulterminate (pipe left right) buf = nulterminate left buf >>= nulterminate right
nulterminate (list left right) buf = nulterminate left buf >>= nulterminate right
nulterminate (back cmd) buf = nulterminate cmd buf

-- `parsecmd` of the string `line`: the command, and what the buffer holds then.
unfoldable pub parsecmd : List ℕ → Outcome (Cmd × List ℕ)
parsecmd line = do
  (cmd, s) ← parseline (4 * length line + 4) (record { place = 0; rest = line })
  let (_, s) = peek [] s
  if not (length s.rest == 0)
      then panic
      else do buf ← nulterminate cmd (line ++ 0 ∷ []); ok (cmd, buf)
