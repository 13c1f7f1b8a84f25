-- ===== src/Tests/Shells.antt =====
-- Runs of the shell's parser, and an instance of its theorem.
use a.Base.{arith, ◌++◌, ℕ, ◌≡◌, refl, List, [], ◌∷◌, Outcome, ok, panic, ◌>>=◌, Post}
use a.User.Ulib.{strchr}
use a.User.Shell.{
  parseline, parse_words, args_loop, back_loop, redir_loop, peek, gettoken, nulterminate, wrap, Cmd,
  Word, exec, redir, pipe, list, back, parsecmd,
}
use a.User.Shell.Words.{join, spans}
use a.User.Shell.Argv.{parsecmd-join}
use a.User.Shell.Lines.{ParseOk, parsecmd-ParseOk}

run : List ℕ → Outcome Cmd
unfolding parsecmd
run line = do (cmd, buf) ← parsecmd line; ok cmd

abbrev word : ℕ → ℕ → Word
word q eq = record { q = q; eq = eq }

-- ls a|(wc;b)>o&
abbrev mixed : List ℕ
mixed =
    b'l' ∷ b's' ∷ b' ' ∷ b'a' ∷ b'|' ∷ b'(' ∷ b'w' ∷ b'c' ∷ b';' ∷ b'b' ∷ b')' ∷ b'>' ∷ b'o' ∷ b'&'
    ∷ []

run_mixed :
    run mixed
    ≡ ok (
        back (
          pipe
            (exec (word 0 2 ∷ word 3 4 ∷ []))
            (redir (list (exec (word 6 8 ∷ [])) (exec (word 9 10 ∷ []))) (word 12 13) 0x201 1)))
unfolding run parsecmd parseline parse_words args_loop back_loop redir_loop peek gettoken
    nulterminate wrap strchr
run_mixed = refl

-- a ( b
run_open : run (b'a' ∷ b' ' ∷ b'(' ∷ b' ' ∷ b'b' ∷ []) ≡ panic
unfolding run parsecmd parseline parse_words args_loop back_loop redir_loop peek gettoken
    nulterminate wrap strchr
run_open = refl

parsecmd-ParseOk_example : Post (ParseOk mixed) (parsecmd mixed)
parsecmd-ParseOk_example = parsecmd-ParseOk mixed

abbrev words : List (List ℕ)
words = (b'l' ∷ b's' ∷ []) ∷ (b'-' ∷ b'l' ∷ []) ∷ []

parsecmd-join_example :
    parsecmd (join b' ' words) ≡ ok (exec (spans 0 words), join 0 words ++ 0 ∷ [])
unfolding strchr
parsecmd-join_example =
    parsecmd-join b' ' words refl
      (
        ((refl, omega arith), ((refl, omega arith), tt)),
        (((refl, omega arith), ((refl, omega arith), tt)), tt),
      )
      (omega arith)
