-- ===== src/Sysfile/Descriptors.antt =====
-- File descriptors of sysfile.c: fdalloc.
use a.Base.{
  ℕ, zero, suc, ◌+◌, ◌<◌, ◌≡◌, refl, sym, ◌≢◌, Option, none, some, List, [], ◌∷◌, arith, get_elem?,
  set, subst, get_elem?-set_self, get_elem?-set_ne, lt_of_get_elem?,
}
use a.Sysfile.{Sys, fd_loop, fdalloc}

-- `fd` is the first free entry, `fd - base` places into the list.
FirstFree : List (Option ℕ) → ℕ → Option ℕ → Type 0
FirstFree os base none = (i : ℕ) → get_elem? os i ≢ some none
FirstFree os base (some fd) =
    (k : ℕ) × (fd ≡ base + k)
    × (get_elem? os k ≡ some none)
    × ((i : ℕ) → i < k → get_elem? os i ≢ some none)

fd_loop-FirstFree : (os : List (Option ℕ)) (base : ℕ) → FirstFree os base (fd_loop os base)
unfolding fd_loop FirstFree
fd_loop-FirstFree [] base = λ i e. ground arith
fd_loop-FirstFree (none ∷ os) base = (0, omega arith, refl, λ i lt. omega arith)
fd_loop-FirstFree (some f ∷ os) base = go (fd_loop os (base + 1)) (fd_loop-FirstFree os (base + 1))
  where
    go : (r : Option ℕ) → FirstFree os (base + 1) r → FirstFree (some f ∷ os) base r
    go none h = elim [ zero ↦ λ e. cc | (suc i) ↦ λ e. h i e ]
    go (some fd) (k, e, free, less) = (
      suc k,
      omega arith,
      free,
      elim [ zero ↦ λ lt e. cc | (suc i) ↦ λ lt e. less i (omega arith) e ],
    )

-- What `fdalloc` does: it finds that no descriptor is free and changes nothing, or it gives the lowest free
-- descriptor to the file and leaves the others as they are.
pub FdOk : ℕ → Sys → Option ℕ × Sys → Type 0
FdOk f s (none, s') = ((i : ℕ) → get_elem? s.ofile i ≢ some none) × (s' ≡ s)
FdOk f s (some fd, s') =
    (get_elem? s.ofile fd ≡ some none)
    × ((i : ℕ) → i < fd → get_elem? s.ofile i ≢ some none)
    × (get_elem? s'.ofile fd ≡ some (some f))
    × ((i : ℕ) → i ≢ fd → get_elem? s'.ofile i ≡ get_elem? s.ofile i)

-- `fdalloc` gives the lowest free descriptor to the file and leaves the others as they are, or returns -1
-- and changes nothing if no descriptor is free.
pub fdalloc-FdOk : (f : ℕ) (s : Sys) → FdOk f s (fdalloc f s)
unfolding fdalloc FdOk FirstFree
fdalloc-FdOk f s = go (fd_loop s.ofile 0) refl (fd_loop-FirstFree s.ofile 0)
  where
    go : (r : Option ℕ) → fd_loop s.ofile 0 ≡ r → FirstFree s.ofile 0 r → FdOk f s (fdalloc f s)
    go none e h =
        let r : fdalloc f s ≡ (none, s) = rw (fdalloc, e) refl in subst (FdOk f s) (sym r) (h, refl)
    go (some fd) e (k, q, free, less) =
        let r : fdalloc f s ≡ (some fd, record s { ofile = set s.ofile fd (some f) }) =
          rw (fdalloc, e) refl in
        let at : get_elem? s.ofile fd ≡ some none = (let z : fd ≡ k = omega arith in rw z free) in
        subst (FdOk f s) (sym r) (
          at,
          (λ i lt. less i (omega arith)),
          get_elem?-set_self s.ofile fd (some f) (lt_of_get_elem? s.ofile fd at),
          λ i ne. get_elem?-set_ne s.ofile fd i (some f) (λ q. ne (sym q)),
        )
