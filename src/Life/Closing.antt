-- ===== src/Life/Closing.antt =====
-- The loop of `exit` of proc.c that closes the files of the process.
use a.Base.{
  ℕ, zero, suc, ◌+◌, ◌<◌, ◌≡◌, refl, sym, ap, ◌∙◌, ◌≢◌, inl, inr, false, some, List, arith, ◌==◌,
  ==_iff, Bool-cases, length, get_elem?, set, modify, Outcome, ok, subst, get_elem?-modify_self,
  lt_of_get_elem?, get_elem?-ne-none, get_elem?-set_self, get_elem?-set_ne, length-set,
}
use a.Kernel.{Kernel, Proc}
use a.Life.Leave.{close_loop, nofile}

-- What a call of the file system leaves alone in the kernel of the process in slot `i`.
pub record IsQuiet (i : ℕ) (k k' : Kernel) : Type 0 where
  pub current : k'.current ≡ k.current
  pub initproc : k'.initproc ≡ k.initproc
  pub lock : k'.ptable_lock ≡ k.ptable_lock
  pub ncli : k'.ncli ≡ k.ncli
  pub slot : get_elem? k'.procs i ≡ get_elem? k.procs i

-- The process in slot `i`, its first `fd` descriptors closed.
pub record Closing (i c init fd : ℕ) (k : Kernel) (p : Proc) : Type 0 where
  pub current : k.current ≡ c
  pub initproc : k.initproc ≡ init
  pub lock : k.ptable_lock ≡ false
  pub ncli : k.ncli ≡ 0
  pub at : get_elem? k.procs i ≡ some p
  pub size : length p.ofile ≡ nofile
  pub closed : (g : ℕ) → g < fd → get_elem? p.ofile g ≡ some 0

abbrev pub clear_fd : ℕ → Proc → Proc
clear_fd fd p = record p { ofile = set p.ofile fd 0 }

-- `close` of descriptor `fd`, open as the file `f`, by the process `p` in slot `i` with no lock held:
-- it is asked for only in states where `Held fd` holds, and leads to one where `Held (fd + 1)` does.
abbrev pub Closes : (ℕ → Kernel → Type 0) → (ℕ → Kernel → Outcome Kernel) → ℕ → Type 0
Closes Held fileclose i =
    (fd f : ℕ) (k : Kernel) (p : Proc)
    → Held fd k
    → k.ptable_lock ≡ false
    → k.ncli ≡ 0
    → get_elem? k.procs i ≡ some p
    → get_elem? p.ofile fd ≡ some f
    → f ≢ 0
    → (k' : Kernel) × (fileclose f k ≡ ok k')
      × IsQuiet i k k'
      × Held (fd + 1) (record k' { procs = modify k'.procs i (clear_fd fd) })

-- A descriptor that is not open needs nothing.
abbrev pub Skips : (ℕ → Kernel → Type 0) → ℕ → Type 0
Skips Held i =
    (fd : ℕ) (k : Kernel) (p : Proc)
    → Held fd k
    → get_elem? k.procs i ≡ some p
    → get_elem? p.ofile fd ≡ some 0
    → Held (fd + 1) k

-- The release of the directory, when all files are closed.
abbrev pub Puts : (ℕ → Kernel → Type 0) → (ℕ → Kernel → Outcome Kernel) → ℕ → Type 0
Puts Held put_cwd i =
    (k : Kernel) (p : Proc)
    → Held nofile k
    → k.ptable_lock ≡ false
    → k.ncli ≡ 0
    → get_elem? k.procs i ≡ some p
    → (k' : Kernel) × (put_cwd p.cwd k ≡ ok k') × IsQuiet i k k'

module _ (Held : ℕ → Kernel → Type 0) (fileclose : ℕ → Kernel → Outcome Kernel) (i c init : ℕ)
    (closes : Closes Held fileclose i) (skips : Skips Held i) where
  close_loop-skip :
      (n fd : ℕ) (k : Kernel) (p : Proc)
      → get_elem? k.procs i ≡ some p
      → get_elem? p.ofile fd ≡ some 0
      → close_loop fileclose i (suc n) fd k ≡ close_loop fileclose i n (fd + 1) k
  unfolding close_loop
  close_loop-skip n fd k p at z = ground arith

  close_loop-close :
      (n fd f : ℕ) (k k' : Kernel) (p : Proc)
      → get_elem? k.procs i ≡ some p
      → get_elem? p.ofile fd ≡ some f
      → (f == 0) ≡ false
      → fileclose f k ≡ ok k'
      → close_loop fileclose i (suc n) fd k
        ≡ close_loop fileclose i n (fd + 1) (record k' { procs = modify k'.procs i (clear_fd fd) })
  unfolding close_loop
  close_loop-close n fd f k k' p at g ne e = ground arith

  close_loop-done : (fd : ℕ) (k : Kernel) → close_loop fileclose i 0 fd k ≡ ok k
  unfolding close_loop
  close_loop-done fd k = refl

  closed-suc :
      (xs : List ℕ) (fd : ℕ)
      → get_elem? xs fd ≡ some 0
      → ((g : ℕ) → g < fd → get_elem? xs g ≡ some 0)
      → (g : ℕ) → g < fd + 1
      → get_elem? xs g ≡ some 0
  closed-suc xs fd z h g lt = elim (Bool-cases (g == fd)) [
    | inl t ↦ subst (λ x. get_elem? xs x ≡ some 0) (sym ((==_iff g fd).0 t)) z
    | inr t ↦ h g (ground arith)
  ]

  pub close_loop-Closing :
      (n fd : ℕ) (k : Kernel) (p : Proc)
      → fd + n ≡ nofile
      → Closing i c init fd k p
      → Held fd k
      → (k' : Kernel) × (q : Proc) × (close_loop fileclose i n fd k ≡ ok k')
        × Closing i c init nofile k' q
        × Held nofile k'
  close_loop-Closing zero fd k p e a held = (
    k,
    p,
    close_loop-done fd k,
    (let z : fd ≡ nofile = omega (arith, e) in subst (λ x. Closing i c init x k p) z a),
    (let z : fd ≡ nofile = omega (arith, e) in subst (λ x. Held x k) z held),
  )
  close_loop-Closing (suc n) fd k p e a held =
      let (f, g) = get_elem?-ne-none p.ofile fd (let s = a.size in omega arith) in
      elim (Bool-cases (f == 0)) [
        | inl t ↦
            let z : get_elem? p.ofile fd ≡ some 0 = g ∙ ap (λ x. some x) ((==_iff f 0).0 t) in
            let (k', q, r, b, last) =
              close_loop-Closing n (fd + 1) k p (omega arith)
                (record {
                  current = a.current;
                  initproc = a.initproc;
                  lock = a.lock;
                  ncli = a.ncli;
                  at = a.at;
                  size = a.size;
                  closed = closed-suc p.ofile fd z a.closed;
                })
                (skips fd k p held a.at z) in
            (k', q, close_loop-skip n fd k p a.at z ∙ r, b, last)
        | inr t ↦
            let (k1, r1, s, next) = closes fd f k p held a.lock a.ncli a.at g (ground arith) in
            let at1 = s.slot ∙ a.at in
            let (k', q, r, b, last) =
              close_loop-Closing n (fd + 1) (record k1 { procs = modify k1.procs i (clear_fd fd) })
                (clear_fd fd p) (omega arith)
                (record {
                  current = s.current ∙ a.current;
                  initproc = s.initproc ∙ a.initproc;
                  lock = s.lock ∙ a.lock;
                  ncli = s.ncli ∙ a.ncli;
                  at = get_elem?-modify_self k1.procs i (clear_fd fd) at1;
                  size = length-set p.ofile fd 0 ∙ a.size;
                  closed =
                      closed-suc (set p.ofile fd 0) fd
                        (get_elem?-set_self p.ofile fd 0 (lt_of_get_elem? p.ofile fd g))
                        (λ x lt. get_elem?-set_ne p.ofile fd x 0 (omega arith) ∙ a.closed x lt);
                })
                next in
            (k', q, close_loop-close n fd f k k1 p a.at g t r1 ∙ r, b, last)
      ]
