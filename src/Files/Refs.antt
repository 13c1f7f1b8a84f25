-- ===== src/Files/Refs.antt =====
-- What the reference counts of file.c keep true.
use a.Base.{
  ℕ, zero, suc, ◌+◌, ◌-◌, ◌≤◌, ◌<◌, ◌≡◌, refl, ap, ◌∙◌, ◌≢◌, inl, inr, true, false, Option, none,
  some, List, [], ◌∷◌, arith, ltb, ◌==◌, if◌then◌else◌, ==_iff, Bool-cases, Option-cases, get_elem?,
  modify, All, ok, ◌>>=◌, subst, get_elem?-modify_self, get_elem?-modify_ne,
}
use a.Files.{
  fd_none, File, Ftable, acquire, release, alloc_loop, filealloc, filedup, no_call, last_call,
  fileclose,
}

-- `o` is the place of the first file without a reference, counted from `i`.
abbrev pub FirstFree : List File → ℕ → Option ℕ → Type 0
FirstFree fs i none = All (λ f. f.ref ≢ 0) fs
FirstFree fs i (some j) =
    (m : ℕ) × (j ≡ i + m)
    × ((f : File) × (get_elem? fs m ≡ some f) × (f.ref ≡ 0))
    × ((n : ℕ) (f : File) → n < m → get_elem? fs n ≡ some f → f.ref ≢ 0)

FirstFree-cons :
    (f : File) (fs : List File) (i : ℕ) (o : Option ℕ)
    → (f.ref == 0) ≡ false
    → FirstFree fs (i + 1) o
    → FirstFree (f ∷ fs) i o
FirstFree-cons f fs i none e h = (ground arith, h)
FirstFree-cons f fs i (some j) e (m, z, here, first) = (suc m, omega (arith, z), here, go)
  where
    go : (n : ℕ) (g : File) → n < suc m → get_elem? (f ∷ fs) n ≡ some g → g.ref ≢ 0
    go zero g lt q = ground arith
    go (suc n) g lt q = first n g (omega arith) q

alloc_loop-FirstFree : (fs : List File) (i : ℕ) → FirstFree fs i (alloc_loop fs i)
unfolding alloc_loop
alloc_loop-FirstFree [] i = tt
alloc_loop-FirstFree (f ∷ fs) i = elim (Bool-cases (f.ref == 0)) [
  | inl t ↦ rw t (0, omega arith, (f, refl, (==_iff f.ref 0).0 t), (λ n g lt. absurd (omega arith)))
  | inr t ↦ rw t (FirstFree-cons f fs i (alloc_loop fs (i + 1)) t (alloc_loop-FirstFree fs (i + 1)))
]

modify-undo :
    (fs : List File) (i : ℕ)
    → modify (modify fs i (λ f. record f { ref = f.ref + 1 })) i (λ f. record f { ref = f.ref - 1 })
      ≡ fs
modify-undo [] i = refl
modify-undo (f ∷ fs) zero =
    let z : f.ref + 1 - 1 ≡ f.ref = omega arith in ap (λ n. record f { ref = n } ∷ fs) z
modify-undo (f ∷ fs) (suc i) = ap (λ gs. f ∷ gs) (modify-undo fs i)

-- `filealloc` of a table that is not locked returns the first file that has no reference, with one
-- reference now and all else kept; or none, with nothing changed, if every file has references.
pub filealloc_lem :
    (t : Ftable)
    → t.lock ≡ false
    → (o : Option ℕ) × (t' : Ftable) × (filealloc t ≡ ok (o, t'))
      × FirstFree t.file 0 o
      × (t' ≡ elim o [
        | none ↦ t
        | some i ↦ record t { file = modify t.file i (λ f. record f { ref = 1 }) }
      ])
unfolding filealloc acquire release
filealloc_lem t u = elim (Option-cases (alloc_loop t.file 0)) [
  | inl e ↦
      (none, t, ground arith, subst (FirstFree t.file 0) e (alloc_loop-FirstFree t.file 0), refl)
  | inr (i, e) ↦ (
    some i,
    record t { file = modify t.file i (λ f. record f { ref = 1 }) },
    ground arith,
    subst (FirstFree t.file 0) e (alloc_loop-FirstFree t.file 0),
    refl,
  )
]

-- For a file with a reference in a table that is not locked, `fileclose` after `filedup` makes no
-- call and leaves the table as it was.
pub fileclose-filedup :
    (i : ℕ) (t : Ftable) (f : File)
    → t.lock ≡ false
    → get_elem? t.file i ≡ some f
    → 1 ≤ f.ref
    → (filedup i t >>= fileclose i) ≡ ok (no_call, t)
unfolding filedup fileclose acquire release
fileclose-filedup i t f u at live =
    let two : ltb 0 (f.ref + 1 - 1) ≡ true = ground arith in
    ground (
      arith,
      get_elem?-modify_self t.file i (λ f. record f { ref = f.ref + 1 }) at,
      modify-undo t.file i,
    )

-- `fileclose` of a file with a reference, in a table that is not locked, takes one away. If it was the
-- last one, the file is FD_NONE and its pipe is closed or its inode released; if not, the file keeps
-- its type and nothing is called. No other file changes.
pub fileclose_lem :
    (i : ℕ) (t : Ftable) (f : File)
    → t.lock ≡ false
    → get_elem? t.file i ≡ some f
    → 1 ≤ f.ref
    → (t' : Ftable) × (fileclose i t ≡ ok ((if f.ref == 1 then last_call f else no_call), t'))
      × (get_elem? t'.file i
          ≡ some (record f { ref = f.ref - 1; type = if f.ref == 1 then fd_none else f.type }))
      × ((j : ℕ) → i ≢ j → get_elem? t'.file j ≡ get_elem? t.file j)
      × (t'.lock ≡ false)
unfolding fileclose acquire release
fileclose_lem i t f u at live = elim (Bool-cases (f.ref == 1)) [
  | inl one ↦ (
    record t { file = modify t.file i (λ f. record f { ref = 0; type = fd_none }) },
    ground arith,
    rw one (
        get_elem?-modify_self t.file i (λ f. record f { ref = 0; type = fd_none }) at
        ∙ (let one' = (==_iff f.ref 1).0 one in
            ap (λ n. some (record f { ref = n; type = fd_none })) (omega arith))),
    (λ j ne. get_elem?-modify_ne t.file i j (λ f. record f { ref = 0; type = fd_none }) ne),
    u,
  )
  | inr more ↦ (
    record t { file = modify t.file i (λ f. record f { ref = f.ref - 1 }) },
    ground arith,
    rw more (get_elem?-modify_self t.file i (λ f. record f { ref = f.ref - 1 }) at),
    (λ j ne. get_elem?-modify_ne t.file i j (λ f. record f { ref = f.ref - 1 }) ne),
    u,
  )
]
