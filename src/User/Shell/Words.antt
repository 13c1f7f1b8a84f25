-- ===== src/User/Shell/Words.antt =====
-- The parser of sh.c on a line of plain words.
use a.Base.{
  ℕ, zero, suc, ◌+◌, ◌<◌, ◌≡◌, refl, ap, ◌∙◌, ◌≢◌, true, false, ◌||◌, ◌==◌, leb, arith, ok, ◌>>=◌,
  List, [], ◌∷◌, ◌++◌, length, All, length-append,
}
use a.User.Ulib.{strchr}
use a.User.Shell.{
  Cursor, whitespace, among, ordinary, skip, Word, token, gettoken, peek, Cmd, exec, wrap,
  redir_loop, parse_redirs, args_loop, parse_words, back_loop, parseline, parsepipe, parseexec,
  max_args,
}

-- A character of a word, and a word.
abbrev pub IsPlain : ℕ → Type 0
IsPlain c = (ordinary c ≡ true) × (c ≢ 0)

abbrev pub IsWord : List ℕ → Type 0
IsWord [] = ⊥
IsWord (c ∷ cs) = IsPlain c × All IsPlain cs

-- Words with `sep` behind each, and where they stand from `k` on.
unfoldable pub join : ℕ → List (List ℕ) → List ℕ
join sep [] = []
join sep (w ∷ ws) = w ++ sep ∷ join sep ws

unfoldable pub spans : ℕ → List (List ℕ) → List Word
spans k [] = []
spans k (w ∷ ws) = record { q = k; eq = k + length w } ∷ spans (k + length w + 1) ws

abbrev pub cursor : ℕ → List ℕ → Cursor
cursor k cs = record { place = k; rest = cs }

plain_space : (c : ℕ) → ordinary c ≡ true → among whitespace c ≡ false
plain_space c h = ground arith

plain_symbol :
    (c : ℕ)
    → ordinary c ≡ true
    → (((c == b'|') || (c == b'(') || (c == b')') || (c == b';') || (c == b'&') || (c == b'<'))
        ≡ false)
      × ((c == b'>') ≡ false)
unfolding strchr
plain_symbol c h = ground arith

-- The tests of `peek` that the parser makes.
abbrev Passes : List ℕ → Type 0
Passes toks = (c : ℕ) → ordinary c ≡ true → among toks c ≡ false

angles : Passes (b'<' ∷ b'>' ∷ [])
unfolding strchr
angles c h = ground arith

stops : Passes (b'|' ∷ b')' ∷ b'&' ∷ b';' ∷ [])
unfolding strchr
stops c h = ground arith

block_start : Passes (b'(' ∷ [])
unfolding strchr
block_start c h = ground arith

pub peek_end : (toks : List ℕ) (p : ℕ) → peek toks (cursor p []) ≡ (false, cursor p [])
unfolding peek skip
peek_end toks p = refl

module _ (sep : ℕ) (space : among whitespace sep ≡ true) where
  skip-word :
      (k : ℕ) (w r : List ℕ)
      → All IsPlain w
      → skip ordinary k (w ++ sep ∷ r) ≡ cursor (k + length w) (sep ∷ r)
  unfolding skip
  skip-word k [] r h =
      let no : ordinary sep ≡ false = rw space refl in
      rw no (ap (λ p. cursor p (sep ∷ r)) (omega arith))
  skip-word k (c ∷ w) r h =
      rw h.0.0 (skip-word (k + 1) w r h.1 ∙ ap (λ p. cursor p (sep ∷ r)) (omega arith))

  skip-join :
      (k : ℕ) (ws : List (List ℕ))
      → All IsWord ws
      → skip (among whitespace) k (join sep ws) ≡ cursor k (join sep ws)
  unfolding skip join
  skip-join k [] h = refl
  skip-join k ([] ∷ ws) h = elim h.0 [ ]
  skip-join k ((c ∷ w) ∷ ws) h = rw (plain_space c h.0.0.0) refl

  pub peek-join :
      (toks : List ℕ) (k : ℕ) (ws : List (List ℕ))
      → Passes toks
      → All IsWord ws
      → peek toks (cursor k (join sep ws)) ≡ (false, cursor k (join sep ws))
  unfolding peek join
  peek-join toks k [] p h = refl
  peek-join toks k ([] ∷ ws) p h = elim h.0 [ ]
  peek-join toks k ((c ∷ w) ∷ ws) p h =
      let q = p c h.0.0.0 in
      let nz : (c == 0) ≡ false = (let z = h.0.0.1 in ground arith) in
      rw (skip-join k ((c ∷ w) ∷ ws) h) (rw nz (rw q refl))

  token-word :
      (k : ℕ) (w r : List ℕ)
      → IsWord w
      → token (cursor k (w ++ sep ∷ r)) ≡ (b'a', cursor (k + length w) (sep ∷ r))
  unfolding token
  token-word k [] r h = elim h [ ]
  token-word k (c ∷ w) r h =
      let nz : (c == 0) ≡ false = (let z = h.0.1 in ground arith) in
      let (ns, ng) = plain_symbol c h.0.0 in
      rw nz (rw ns (rw ng (ap (λ s. (b'a', s)) (skip-word k (c ∷ w) r h))))

  skip-separator :
      (k : ℕ) (ws : List (List ℕ))
      → All IsWord ws
      → skip (among whitespace) k (sep ∷ join sep ws) ≡ cursor (k + 1) (join sep ws)
  unfolding skip
  skip-separator k ws h = rw space (skip-join (k + 1) ws h)

  gettoken-join :
      (k : ℕ) (w : List ℕ) (ws : List (List ℕ))
      → All IsWord (w ∷ ws)
      → gettoken (cursor k (join sep (w ∷ ws)))
        ≡ (b'a', record { q = k; eq = k + length w }, cursor (k + length w + 1) (join sep ws))
  unfolding gettoken join
  gettoken-join k w ws h =
      rw (skip-join k (w ∷ ws) h)
        (rw (token-word k w (join sep ws) h.0) (rw (skip-separator (k + length w) ws h.1) refl))

  parse_redirs-join :
      (k : ℕ) (ws : List (List ℕ))
      → All IsWord ws
      → parse_redirs (cursor k (join sep ws)) ≡ ok ([], cursor k (join sep ws))
  unfolding redir_loop
  parse_redirs-join k ws h =
      let e = peek-join (b'<' ∷ b'>' ∷ []) k ws angles h in rw (e, redir_loop) (rw e refl)

  args_loop-word :
      (n argc k : ℕ) (w : List ℕ) (ws : List (List ℕ))
      → All IsWord (w ∷ ws)
      → argc + 1 < max_args
      → args_loop (suc n) argc (cursor k (join sep (w ∷ ws))) ≡ (
          args_loop n (argc + 1) (cursor (k + length w + 1) (join sep ws)) >>= λ r.
          ok (record { q = k; eq = k + length w } ∷ r.0, r.1, r.2))
  unfolding args_loop
  args_loop-word n argc k w ws h fits =
      let room : leb max_args (argc + 1) ≡ false = ground arith in
      let e = peek-join (b'|' ∷ b')' ∷ b'&' ∷ b';' ∷ []) k (w ∷ ws) stops h in
      rw (e, args_loop)
        (rw e (
          rw (gettoken-join k w ws h)
            (rw room (rw (parse_redirs-join (k + length w + 1) ws h.1) refl))))

  args_loop-end :
      (n argc k : ℕ)
      → args_loop (suc n) argc (cursor k (join sep []))
        ≡ ok (spans k [], [], cursor (k + length (join sep [])) [])
  unfolding args_loop peek gettoken join spans
  args_loop-end n argc k = ap (λ p. ok ([], [], cursor p [])) (omega arith)

  length-join :
      (w : List ℕ) (ws : List (List ℕ))
      → length (join sep (w ∷ ws)) ≡ length w + 1 + length (join sep ws)
  unfolding join
  length-join w ws = omega (arith, length-append w (sep ∷ join sep ws))

  args_loop-join :
      (n argc k : ℕ) (ws : List (List ℕ))
      → All IsWord ws
      → length (join sep ws) < n
      → argc + length ws < max_args
      → args_loop n argc (cursor k (join sep ws))
        ≡ ok (spans k ws, [], cursor (k + length (join sep ws)) [])
  unfolding join spans
  args_loop-join zero argc k ws h lt fits = absurd (omega arith)
  args_loop-join (suc n) argc k [] h lt fits = args_loop-end n argc k
  args_loop-join (suc n) argc k (w ∷ ws) h lt fits =
      let e : length (join sep (w ∷ ws)) ≡ length w + 1 + length (join sep ws) = length-join w ws in
      args_loop-word n argc k w ws h (omega arith)
      ∙ rw (args_loop-join n (argc + 1) (k + length w + 1) ws h.1 (omega arith) (omega arith))
          (ap (λ p. ok (spans k (w ∷ ws), [], cursor p [])) (omega arith))

  parse_words-join :
      (k : ℕ) (ws : List (List ℕ))
      → All IsWord ws
      → length ws < max_args
      → parse_words (cursor k (join sep ws))
        ≡ ok (exec (spans k ws), cursor (k + length (join sep ws)) [])
  unfolding parse_words wrap
  parse_words-join k ws h fits =
      rw (parse_redirs-join k ws h)
        (rw (args_loop-join (suc (length (join sep ws))) 0 k ws h (omega arith) (omega arith)) refl)

  -- From the end of the line on, no function of the parser finds anything.
  module _ (k : ℕ) (ws : List (List ℕ)) (words : All IsWord ws) (fits : length ws < max_args) where
    abbrev result : Cmd × Cursor
    result = (exec (spans k ws), cursor (k + length (join sep ws)) [])

    parseexec-join : (n : ℕ) → parseexec (suc n) (cursor k (join sep ws)) ≡ ok result
    unfolding parseline
    parseexec-join n =
        let e = peek-join (b'(' ∷ []) k ws block_start words in
        rw (e, parseexec) (rw e (parse_words-join k ws words fits))

    parsepipe-join : (n : ℕ) → parsepipe (suc (suc n)) (cursor k (join sep ws)) ≡ ok result
    unfolding parseline
    parsepipe-join n =
        let e = peek_end (b'|' ∷ []) (k + length (join sep ws)) in
        rw (parseexec-join n) (rw (e, ◌>>=◌) (rw e refl))

    back_loop-end :
        (n p : ℕ) (cmd : Cmd) → back_loop (suc n) cmd (cursor p []) ≡ ok (cmd, cursor p [])
    unfolding back_loop
    back_loop-end n p cmd = let e = peek_end (b'&' ∷ []) p in rw (e, back_loop) (rw e refl)

    pub parseline-join :
        (n : ℕ) → parseline (suc (suc (suc n))) (cursor k (join sep ws)) ≡ ok result
    unfolding parseline
    parseline-join n =
        let p = k + length (join sep ws) in
        let e = peek_end (b';' ∷ []) p in
        rw (parsepipe-join n)
          (rw (back_loop-end 0 p (exec (spans k ws))) (rw (e, ◌>>=◌) (rw e refl)))
