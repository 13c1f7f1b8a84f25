-- ===== src/User/Shell/Argv.antt =====
-- parsecmd of sh.c on a line of plain words: the command, and the strings that `argv` points to.
use a.Base.{
  ℕ, suc, ◌+◌, ◌*◌, ◌<◌, ◌≡◌, refl, sym, ap, ◌∙◌, true, ltb, arith, ok, ◌>>=◌, List, [], ◌∷◌, ◌++◌,
  length, set, All, length-append,
}
use a.User.Shell.{whitespace, among, exec, max_args, put_nul, end_words, nulterminate, parsecmd}
use a.User.Shell.Words.{IsWord, join, spans, peek_end, parseline-join}
use mathlib.Core.List.{append_assoc}

set-append : (xs : List ℕ) (x v : ℕ) (ys : List ℕ) → set (xs ++ x ∷ ys) (length xs) v ≡ xs ++ v ∷ ys
set-append [] x v ys = refl
set-append (y ∷ xs) x v ys = ap (λ l. y ∷ l) (set-append xs x v ys)

put_nul-append :
    (xs : List ℕ) (x : ℕ) (ys : List ℕ) → put_nul (length xs) (xs ++ x ∷ ys) ≡ ok (xs ++ 0 ∷ ys)
put_nul-append xs x ys =
    let e = length-append xs (x ∷ ys) in
    let inside : ltb (length xs) (length (xs ++ x ∷ ys)) ≡ true = ground arith in
    rw inside (ap ok (set-append xs x 0 ys))

regroup : (pre w j z : List ℕ) (x : ℕ) → pre ++ ((w ++ x ∷ j) ++ z) ≡ (pre ++ w) ++ x ∷ (j ++ z)
regroup pre w j z x =
    ap (λ l. pre ++ l) (append_assoc w (x ∷ j) z) ∙ sym (append_assoc pre w (x ∷ (j ++ z)))

module _ (sep : ℕ) where
  end_words-join :
      (k : ℕ) (pre : List ℕ) (ws : List (List ℕ))
      → length pre ≡ k
      → end_words (spans k ws) (pre ++ (join sep ws ++ 0 ∷ [])) ≡ ok (pre ++ (join 0 ws ++ 0 ∷ []))
  unfolding end_words spans join
  end_words-join k pre [] e = refl
  end_words-join k pre (w ∷ ws) e =
      let tail = join sep ws ++ 0 ∷ [] in
      let place : k + length w ≡ length (pre ++ w) = omega (arith, length-append pre w) in
      let next : length ((pre ++ w) ++ 0 ∷ []) ≡ k + length w + 1 =
        omega (arith, length-append (pre ++ w) (0 ∷ []), length-append pre w) in
      rw (regroup pre w (join sep ws) (0 ∷ []) sep) (
        rw place (
          rw (put_nul-append (pre ++ w) sep tail) (
            ap (end_words (spans (length (pre ++ w) + 1) ws))
              (sym (append_assoc (pre ++ w) (0 ∷ []) tail))
            ∙ end_words-join (length (pre ++ w) + 1) ((pre ++ w) ++ 0 ∷ []) ws (omega arith)
            ∙ ap ok (
                append_assoc (pre ++ w) (0 ∷ []) (join 0 ws ++ 0 ∷ [])
                ∙ sym (regroup pre w (join 0 ws) (0 ∷ []) 0)))))

  -- `parsecmd` of at most nine words, each followed by the same white space character, is one `exec`
  -- with the words as its arguments, in order; in the buffer each of them ends in a nul, so that
  -- `argv` points to the words as strings.
  pub parsecmd-join :
      (ws : List (List ℕ))
      → among whitespace sep ≡ true
      → All IsWord ws
      → length ws < max_args
      → parsecmd (join sep ws) ≡ ok (exec (spans 0 ws), join 0 ws ++ 0 ∷ [])
  unfolding parsecmd nulterminate
  parsecmd-join ws space words fits =
      let line = join sep ws in
      let fuel : 4 * length line + 4 ≡ suc (suc (suc (4 * length line + 1))) = omega arith in
      let e = peek_end [] (0 + length line) in
      rw fuel (
        rw (parseline-join sep space 0 ws words fits (4 * length line + 1))
          (rw (e, ◌>>=◌) (rw (end_words-join 0 [] ws refl) refl)))
