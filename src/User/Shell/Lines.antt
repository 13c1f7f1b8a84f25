-- ===== src/User/Shell/Lines.antt =====
-- The functions of the parser of sh.c that call each other, and the nuls that end the words.
use a.Base.{
  ℕ, zero, suc, ◌+◌, ◌*◌, ◌≤◌, ◌≡◌, ◌∙◌, not, ◌==◌, ltb, arith, List, [], ◌∷◌, ◌++◌, length, All,
  Post, Post-ok, Post-panic, Post-bind, Post-weaken, Post-elim, Post-if, length-set, length-append,
}
use a.User.Shell.{
  Cursor, Word, gettoken, peek, Cmd, exec, redir, pipe, list, back, parseline, parsepipe,
  parseblock, parseexec, put_nul, end_words, nulterminate, parsecmd,
}
use a.User.Shell.Tokens.{Moves-trans, peek-Moves, peek-gettoken}
use a.User.Shell.Parse.{
  WordIn, Within, wrap-Within, At, At-Moves, Parsed, after_peek, Redirected,
  parse_redirs-Redirected, parse_words-Parsed, back_loop-Parsed,
}

module _ (e : ℕ) where
  mutual
    unfolding parseline Within

    parseline-Parsed :
        (n : ℕ) (s : Cursor)
        → At e s
        → 4 * length s.rest + 4 ≤ n
        → Post (Parsed e s) (parseline n s)
    parseline-Parsed zero s a le = absurd (omega arith)
    parseline-Parsed (suc n) s a le =
        Post-bind (Parsed e s) (Parsed e s) _ _ (parsepipe-Parsed n s a (omega arith)) (λ r h.
          let fewer = h.1.shorter in
          let ar = At-Moves e s r.1 a h.1 in
          Post-bind (Parsed e r.1) (Parsed e s) _ _
            (back_loop-Parsed e (suc (length r.1.rest)) r.0 r.1 (omega arith) h.0)
            (λ q g.
              let rest = g.1.shorter in
              let u = (gettoken (peek (b';' ∷ []) q.1).1).2 in
              let mu = after_peek e (b';' ∷ []) q.1 in
              let mq = Moves-trans h.1 g.1 in
              Post-elim (Parsed e s) (peek (b';' ∷ []) q.1).0 _ _
                (λ more.
                  let less = peek-gettoken (b';' ∷ []) q.1 more in
                  Post-bind (Parsed e u) (Parsed e s) _ _
                    (parseline-Parsed n u (At-Moves e s u a (Moves-trans mq mu)) (omega arith))
                    (λ t k.
                      Post-ok (Parsed e s) _ ((g.0, k.0), Moves-trans mq (Moves-trans mu k.1))))
                (λ stop.
                  Post-ok (Parsed e s) _ (g.0, Moves-trans mq (peek-Moves (b';' ∷ []) q.1)))))

    parsepipe-Parsed :
        (n : ℕ) (s : Cursor)
        → At e s
        → 4 * length s.rest + 3 ≤ n
        → Post (Parsed e s) (parsepipe n s)
    parsepipe-Parsed zero s a le = absurd (omega arith)
    parsepipe-Parsed (suc n) s a le =
        Post-bind (Parsed e s) (Parsed e s) _ _ (parseexec-Parsed n s a (omega arith)) (λ r h.
          let fewer = h.1.shorter in
          let u = (gettoken (peek (b'|' ∷ []) r.1).1).2 in
          let mu = Moves-trans h.1 (after_peek e (b'|' ∷ []) r.1) in
          Post-elim (Parsed e s) (peek (b'|' ∷ []) r.1).0 _ _
            (λ more.
              let less = peek-gettoken (b'|' ∷ []) r.1 more in
              Post-bind (Parsed e u) (Parsed e s) _ _
                (parsepipe-Parsed n u (At-Moves e s u a mu) (omega arith))
                (λ t k. Post-ok (Parsed e s) _ ((h.0, k.0), Moves-trans mu k.1)))
            (λ stop. Post-ok (Parsed e s) _ (h.0, Moves-trans h.1 (peek-Moves (b'|' ∷ []) r.1))))

    parseexec-Parsed :
        (n : ℕ) (s : Cursor)
        → At e s
        → 4 * length s.rest + 2 ≤ n
        → Post (Parsed e s) (parseexec n s)
    parseexec-Parsed zero s a le = absurd (omega arith)
    parseexec-Parsed (suc n) s a le =
        let t = (peek (b'(' ∷ []) s).1 in
        let mt = peek-Moves (b'(' ∷ []) s in
        let at_t = At-Moves e s t a mt in
        let behind : (r : Cmd × Cursor) → Parsed e t r → Parsed e s r =
          λ r h. (h.0, Moves-trans mt h.1) in
        let fewer = mt.shorter in
        Post-elim (Parsed e s) (peek (b'(' ∷ []) s).0 _ _
          (λ block.
            Post-weaken (Parsed e t) (Parsed e s) _ behind
              (parseblock-Parsed n t at_t (omega arith)))
          (λ words. Post-weaken (Parsed e t) (Parsed e s) _ behind (parse_words-Parsed e t at_t))

    parseblock-Parsed :
        (n : ℕ) (s : Cursor)
        → At e s
        → 4 * length s.rest + 1 ≤ n
        → Post (Parsed e s) (parseblock n s)
    parseblock-Parsed zero s a le = absurd (omega arith)
    parseblock-Parsed (suc n) s a le =
        let u = (gettoken (peek (b'(' ∷ []) s).1).2 in
        let mu = after_peek e (b'(' ∷ []) s in
        Post-elim (Parsed e s) (peek (b'(' ∷ []) s).0 _ _
          (λ open_paren.
            let less = peek-gettoken (b'(' ∷ []) s open_paren in
            Post-bind (Parsed e u) (Parsed e s) _ _
              (parseline-Parsed n u (At-Moves e s u a mu) (omega arith))
              (λ r h.
                let v = (gettoken (peek (b')' ∷ []) r.1).1).2 in
                let mv = Moves-trans mu (Moves-trans h.1 (after_peek e (b')' ∷ []) r.1)) in
                Post-if (Parsed e s) (not (peek (b')' ∷ []) r.1).0) _ _
                  (λ missing. Post-panic (Parsed e s))
                  (λ close_paren.
                    Post-bind (Redirected e v) (Parsed e s) _ _
                      (parse_redirs-Redirected e v (At-Moves e s v a mv))
                      (λ q k.
                        Post-ok (Parsed e s) _
                          (wrap-Within e q.0 r.0 k.0 h.0, Moves-trans mv k.1)))))
          (λ no. Post-panic (Parsed e s))

  -- The buffer holds the line and its nul.
  abbrev Sized : List ℕ → Type 0
  Sized buf = length buf ≡ e + 1

  put_nul-Sized : (k : ℕ) (buf : List ℕ) → k ≤ e → Sized buf → Post Sized (put_nul k buf)
  put_nul-Sized k buf le h =
      Post-if Sized (ltb k (length buf)) _ _ (λ lt. Post-ok Sized _ (length-set buf k 0 ∙ h))
        (λ ge. absurd (ground arith))

  end_words-Sized :
      (ws : List Word) (buf : List ℕ)
      → All (WordIn e) ws
      → Sized buf
      → Post Sized (end_words ws buf)
  unfolding end_words
  end_words-Sized [] buf w h = Post-ok Sized buf h
  end_words-Sized (x ∷ ws) buf w h =
      Post-bind Sized Sized _ _ (put_nul-Sized x.eq buf w.0.1 h) (λ b g. end_words-Sized ws b w.1 g)

  nulterminate-Sized :
      (cmd : Cmd) (buf : List ℕ) → Within e cmd → Sized buf → Post Sized (nulterminate cmd buf)
  unfolding nulterminate Within
  nulterminate-Sized (exec ws) buf w h = end_words-Sized ws buf w.0 h
  nulterminate-Sized (redir cmd x mode fd) buf w h =
      Post-bind Sized Sized _ _ (nulterminate-Sized cmd buf w.0 h)
        (λ b g. put_nul-Sized x.eq b w.1.1 g)
  nulterminate-Sized (pipe left right) buf w h =
      Post-bind Sized Sized _ _ (nulterminate-Sized left buf w.0 h)
        (λ b g. nulterminate-Sized right b w.1 g)
  nulterminate-Sized (list left right) buf w h =
      Post-bind Sized Sized _ _ (nulterminate-Sized left buf w.0 h)
        (λ b g. nulterminate-Sized right b w.1 g)
  nulterminate-Sized (back cmd) buf w h = nulterminate-Sized cmd buf w h

-- What `parsecmd` makes of a line: a command all of whose words are of a character at least and in the
-- line, with at most nine in an `exec`, and a buffer of the line's length and its nul.
abbrev pub ParseOk : List ℕ → Cmd × List ℕ → Type 0
ParseOk line r = Within (length line) r.0 × (length r.1 ≡ length line + 1)

-- `parsecmd` of every line ends, in a panic or a command with its words in the line, each of a
-- character at least, and at most nine in an `exec`, so that `argv` has room for them and its null;
-- the nuls that end the words are written inside the buffer.
pub parsecmd-ParseOk : (line : List ℕ) → Post (ParseOk line) (parsecmd line)
unfolding parsecmd
parsecmd-ParseOk line =
    let e = length line in
    let s : Cursor = record { place = 0; rest = line } in
    Post-bind (Parsed e s) (ParseOk line) _ _
      (parseline-Parsed e (4 * e + 4) s (omega arith) (omega arith))
      (λ r h.
        Post-if (ParseOk line) (not (length (peek [] r.1).1.rest == 0)) _ _
          (λ left_over. Post-panic (ParseOk line))
          (λ at_end.
            Post-bind (Sized e) (ParseOk line) _ _
              (nulterminate-Sized e r.0 (line ++ 0 ∷ []) h.0 (length-append line (0 ∷ [])))
              (λ b g. Post-ok (ParseOk line) _ (h.0, g))))
