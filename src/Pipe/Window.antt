-- ===== src/Pipe/Window.antt =====
-- The bytes that a pipe of pipe.c holds, oldest first.
use a.Base.{
  ℕ, zero, suc, ◌+◌, ◌-◌, ◌%◌, ◌^◌, ◌≤◌, ◌<◌, ◌≡◌, refl, ap, ap₂, ◌∙◌, ◌↔◌, true, false, List, [],
  ◌∷◌, ◌++◌, arith, length, set, get_or, get_or-set_self, get_or-set_ne, length-set,
}
use a.Pipe.{Pipe, pipe_size, put, full}

-- `n` bytes from counter `r` on.
abbrev pub window : List ℕ → ℕ → ℕ → List ℕ
window buf r zero = []
window buf r (suc n) = get_or buf (r % pipe_size) 0 ∷ window buf ((r + 1) % 2 ^ 32) n

abbrev pub count : Pipe → ℕ
count p = (p.nwrite + 2 ^ 32 - p.nread) % 2 ^ 32

abbrev pub contents : Pipe → List ℕ
contents p = window p.buf p.nread (count p)

pub record IsPipe (p : Pipe) : Type 0 where
  pub size : length p.buf ≡ pipe_size
  pub read_small : p.nread < 2 ^ 32
  pub write_small : p.nwrite < 2 ^ 32
  pub fits : count p ≤ pipe_size

length-window : (buf : List ℕ) (r n : ℕ) → length (window buf r n) ≡ n
length-window buf r zero = refl
length-window buf r (suc n) = ap suc (length-window buf ((r + 1) % 2 ^ 32) n)

pub length-contents : (p : Pipe) → length (contents p) ≡ count p
length-contents p = length-window p.buf p.nread (count p)

-- Writing just behind a window extends it.
window-set :
    (buf : List ℕ) (x n r w : ℕ)
    → length buf ≡ pipe_size
    → n < pipe_size
    → w ≡ (r + n) % 2 ^ 32
    → r < 2 ^ 32
    → window (set buf (w % pipe_size) x) r (suc n) ≡ window buf r n ++ (x ∷ [])
window-set buf x zero r w s h e sm =
    let i : w % pipe_size ≡ r % pipe_size = omega arith in
    rw (i, get_or-set_self buf (r % pipe_size) x 0 (omega arith))
window-set buf x (suc n) r w s h e sm =
    ap₂ ◌∷◌ (get_or-set_ne buf (w % pipe_size) (r % pipe_size) x 0 (omega arith))
      (window-set buf x n ((r + 1) % 2 ^ 32) w s (omega arith) (omega arith) (omega arith))

module _ (p : Pipe) (v : IsPipe p) where
  pub contents-put : (x : ℕ) → full p ≡ false → contents (put x p) ≡ contents p ++ (x ∷ [])
  unfolding put
  contents-put x h =
      let a = v.size in
      let b = v.read_small in
      let c = v.write_small in
      let d = v.fits in
      let more : count (put x p) ≡ suc (count p) = ground arith in
      rw more (window-set p.buf x (count p) p.nread p.nwrite a (ground arith) (omega arith) b)

  pub put-IsPipe : (x : ℕ) → full p ≡ false → IsPipe (put x p)
  unfolding put
  put-IsPipe x h =
      let a = v.size in
      let b = v.read_small in
      let c = v.write_small in
      let d = v.fits in
      record {
        size = length-set p.buf (p.nwrite % pipe_size) x ∙ a;
        read_small = b;
        write_small = omega arith;
        fits = ground arith;
      }

  pub full_iff : (full p ≡ true) ↔ (count p ≡ pipe_size)
  full_iff = let b = v.read_small in let c = v.write_small in ground arith
