-- ===== src/User/Shell/Parse.antt =====
-- The parser of sh.c: the commands that it makes of a line, and its loops.
use a.Base.{
  ℕ, zero, suc, ◌+◌, ◌≤◌, ◌<◌, ◌≡◌, ◌∙◌, ◌≢◌, inl, inr, false, ◌||◌, not, ◌==◌, leb, arith,
  Bool-cases, ok, ◌>>=◌, List, [], ◌∷◌, ◌++◌, length, All, Post, Post-ok, Post-panic, Post-bind,
  Post-weaken, Post-elim, Post-if,
}
use a.User.Shell.{
  Cursor, Word, gettoken, peek, Cmd, exec, redir, pipe, list, back, Redir, redir_of, wrap,
  redir_loop, parse_redirs, args_loop, parse_words, back_loop, max_args,
}
use a.User.Shell.Tokens.{
  Moves, Moves-trans, gettoken-Token, gettoken-word, gettoken-takes, peek-Moves, peek-gettoken,
}

-- A word of one character or more in a line of `e` characters.
abbrev pub WordIn : ℕ → Word → Type 0
WordIn e w = (w.q < w.eq) × (w.eq ≤ e)

abbrev pub RedirIn : ℕ → Redir → Type 0
RedirIn e r = WordIn e r.file

-- All words of a command are in the line, and `argv` has room for those of an `exec` and its null.
unfoldable pub Within : ℕ → Cmd → Type 0
Within e (exec ws) = All (WordIn e) ws × (length ws < max_args)
Within e (redir cmd w mode fd) = Within e cmd × WordIn e w
Within e (pipe left right) = Within e left × Within e right
Within e (list left right) = Within e left × Within e right
Within e (back cmd) = Within e cmd

All-append : {A : Type 0} (P : A → Type 0) (xs ys : List A) → All P xs → All P ys → All P (xs ++ ys)
All-append P [] ys h g = g
All-append P (x ∷ xs) ys h g = (h.0, All-append P xs ys h.1 g)

redir_of-In : (e tok : ℕ) (w : Word) → WordIn e w → All (RedirIn e) (redir_of tok w)
redir_of-In e tok w h = elim (Bool-cases (tok == b'<')) [
  | inl y ↦ rw y (h, tt)
  | inr n ↦ elim (Bool-cases ((tok == b'>') || (tok == b'+'))) [
    | inl y ↦ rw n (rw y (h, tt))
    | inr m ↦ rw n (rw m tt)
  ]
]

pub wrap-Within :
    (e : ℕ) (rs : List Redir) (cmd : Cmd)
    → All (RedirIn e) rs
    → Within e cmd
    → Within e (wrap rs cmd)
unfolding wrap Within
wrap-Within e [] cmd h g = g
wrap-Within e (r ∷ rs) cmd h g = wrap-Within e rs (redir cmd r.file r.mode r.fd) h.1 (g, h.0)

module _ (e : ℕ) where
  -- The line ends `e` characters from its start.
  abbrev pub At : Cursor → Type 0
  At s = s.place + length s.rest ≡ e

  pub At-Moves : (s t : Cursor) → At s → Moves s t → At t
  At-Moves s t a m = m.same_end ∙ a

  -- What `gettoken` finds where it finds a word, and where it moves to after a `peek`.
  word-In : (s : Cursor) → At s → (gettoken s).0 ≢ 0 → WordIn e (gettoken s).1
  word-In s a nz = let (p, q) = gettoken-word s nz in (p, omega arith)

  pub after_peek : (toks : List ℕ) (s : Cursor) → Moves s (gettoken (peek toks s).1).2
  after_peek toks s = Moves-trans (peek-Moves toks s) (gettoken-Token (peek toks s).1).moves

  abbrev pub Redirected : Cursor → List Redir × Cursor → Type 0
  Redirected s r = All (RedirIn e) r.0 × Moves s r.1

  redir_loop-Redirected :
      (n : ℕ) (s : Cursor) → At s → length s.rest < n → Post (Redirected s) (redir_loop n s)
  unfolding redir_loop
  redir_loop-Redirected zero s a lt = absurd (omega arith)
  redir_loop-Redirected (suc n) s a lt =
      let toks = b'<' ∷ b'>' ∷ [] in
      let t = (peek toks s).1 in
      let u = (gettoken t).2 in
      let v = (gettoken u).2 in
      let mu = after_peek toks s in
      let mv = (gettoken-Token u).moves in
      Post-elim (Redirected s) (peek toks s).0 _ _
        (λ more.
          Post-if (Redirected s) (not ((gettoken u).0 == b'a')) _ _ (λ b. Post-panic (Redirected s))
            (λ is.
              let less = peek-gettoken toks s more in
              let le = mv.shorter in
              let w = word-In u (At-Moves s u a mu) (λ z. ground arith) in
              Post-bind (Redirected v) (Redirected s) _ _
                (redir_loop-Redirected n v (At-Moves u v (At-Moves s u a mu) mv) (omega arith))
                (λ r h. Post-ok (Redirected s) _ (
                  All-append (RedirIn e) (redir_of (gettoken t).0 (gettoken u).1) r.0
                      (redir_of-In e (gettoken t).0 (gettoken u).1 w) h.0,
                  Moves-trans mu (Moves-trans mv h.1),
                ))))
        (λ stop. Post-ok (Redirected s) _ (tt, peek-Moves toks s))

  pub parse_redirs-Redirected : (s : Cursor) → At s → Post (Redirected s) (parse_redirs s)
  parse_redirs-Redirected s a = redir_loop-Redirected (suc (length s.rest)) s a (omega arith)

  abbrev Argued : ℕ → Cursor → List Word × List Redir × Cursor → Type 0
  Argued argc s r =
      All (WordIn e) r.0 × (argc + length r.0 < max_args) × All (RedirIn e) r.1 × Moves s r.2

  -- The rest of a round that has found the word `w` and stands at `u`.
  args_round :
      (n argc : ℕ) (s u : Cursor) (w : Word)
      → At u
      → Moves s u
      → length u.rest < n
      → WordIn e w
      → ((t : Cursor)
          → At t
          → length t.rest < n
          → Post (Argued (argc + 1) t) (args_loop n (argc + 1) t))
      → Post (Argued argc s) (do
        (rs, s) ← parse_redirs u
        (ws, rs', s) ← args_loop n (argc + 1) s
        ok (w ∷ ws, rs ++ rs', s))
  args_round n argc s u w a mu lt win ih =
      Post-bind (Redirected u) (Argued argc s) _ _ (parse_redirs-Redirected u a) (λ r h.
        let le = h.1.shorter in
        Post-bind (Argued (argc + 1) r.1) (Argued argc s) _ _
          (ih r.1 (At-Moves u r.1 a h.1) (omega arith))
          (λ q g.
            let c = g.1 in
            Post-ok (Argued argc s) _ (
              (win, g.0),
              omega arith,
              All-append (RedirIn e) r.0 q.1 h.0 g.2,
              Moves-trans mu (Moves-trans h.1 g.3),
            )))

  less_than : (a b : ℕ) → leb a b ≡ false → b < a
  less_than a b h = ground arith

  args_loop-Argued :
      (n argc : ℕ) (s : Cursor)
      → At s
      → length s.rest < n
      → argc < max_args
      → Post (Argued argc s) (args_loop n argc s)
  unfolding args_loop
  args_loop-Argued zero argc s a lt room = absurd (omega arith)
  args_loop-Argued (suc n) argc s a lt room =
      let toks = b'|' ∷ b')' ∷ b'&' ∷ b';' ∷ [] in
      let t = (peek toks s).1 in
      let mt = peek-Moves toks s in
      let peeked = mt.shorter in
      let mu = after_peek toks s in
      Post-elim (Argued argc s) (peek toks s).0 _ _
        (λ stop. Post-ok (Argued argc s) _ (tt, omega arith, tt, mt))
        (λ go.
          Post-if (Argued argc s) ((gettoken t).0 == 0) _ _
            (λ none_left. Post-ok (Argued argc s) _ (tt, omega arith, tt, mu))
            (λ nz.
              let less = gettoken-takes t nz in
              Post-if (Argued argc s) (not ((gettoken t).0 == b'a')) _ _
                (λ other. Post-panic (Argued argc s))
                (λ is.
                  Post-if (Argued argc s) (leb max_args (argc + 1)) _ _
                    (λ full. Post-panic (Argued argc s))
                    (λ fits.
                      args_round n argc s (gettoken t).2 (gettoken t).1
                        (At-Moves s (gettoken t).2 a mu) mu (omega arith)
                        (word-In t (At-Moves s t a mt) (λ z. ground arith))
                        (λ v av lv.
                          args_loop-Argued n (argc + 1) v av lv
                            (less_than max_args (argc + 1) fits))))))

  -- A command and the place after it.
  abbrev pub Parsed : Cursor → Cmd × Cursor → Type 0
  Parsed s r = Within e r.0 × Moves s r.1

  pub parse_words-Parsed : (s : Cursor) → At s → Post (Parsed s) (parse_words s)
  unfolding parse_words Within
  parse_words-Parsed s a =
      Post-bind (Redirected s) (Parsed s) _ _ (parse_redirs-Redirected s a) (λ r h.
        Post-bind (Argued 0 r.1) (Parsed s) _ _
          (args_loop-Argued (suc (length r.1.rest)) 0 r.1 (At-Moves s r.1 a h.1) (omega arith)
            (omega arith))
          (λ q g. Post-ok (Parsed s) _ (
            wrap-Within e (r.0 ++ q.1) (exec q.0) (All-append (RedirIn e) r.0 q.1 h.0 g.2)
                (g.0, (let c = g.1 in omega arith)),
            Moves-trans h.1 g.3,
          )))

  pub back_loop-Parsed :
      (n : ℕ) (cmd : Cmd) (s : Cursor)
      → length s.rest < n
      → Within e cmd
      → Post (Parsed s) (back_loop n cmd s)
  unfolding back_loop Within
  back_loop-Parsed zero cmd s lt w = absurd (omega arith)
  back_loop-Parsed (suc n) cmd s lt w =
      let toks = b'&' ∷ [] in
      let u = (gettoken (peek toks s).1).2 in
      let mu = after_peek toks s in
      Post-elim (Parsed s) (peek toks s).0 _ _
        (λ more.
          let less = peek-gettoken toks s more in
          Post-weaken (Parsed u) (Parsed s) _ (λ r h. (h.0, Moves-trans mu h.1))
            (back_loop-Parsed n (back cmd) u (omega arith) w))
        (λ stop. Post-ok (Parsed s) _ (w, peek-Moves toks s))
