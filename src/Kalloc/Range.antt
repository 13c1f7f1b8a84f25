-- ===== src/Kalloc/Range.antt =====
-- `freerange` of kalloc.c, and the two phases of the allocator's initialisation.
use a.Base.{
  ℕ, zero, suc, ◌+◌, ◌-◌, ◌*◌, ◌/◌, ◌%◌, ◌≤◌, ◌<◌, ◌≡◌, true, false, List, [], ◌∷◌, arith, ok, All,
  leb,
}
use a.Kalloc.{Kmem, page_size, phys_stop, kern_base, page_round_up, free_loop, freerange}
use a.Kalloc.FreeList.{IsPage, IsFree, Fresh, freed, freed-IsFree, kfree-eq-freed}

-- The pages from `p` on, `n` of them, put one by one in front of `xs`.
abbrev pub push_pages : ℕ → ℕ → List ℕ → List ℕ
push_pages zero p xs = xs
push_pages (suc n) p xs = push_pages n (p + page_size) (p ∷ xs)

-- `[p, vend)` is kernel memory that the allocator may own, and starts at a page.
pub record IsRange (kernel_end p vend : ℕ) : Type 0 where
  pub aligned : p % page_size ≡ 0
  pub after_kernel : kernel_end ≤ p
  pub mapped : kern_base ≤ p
  pub within : vend ≤ kern_base + phys_stop

Fresh-of_below : (p : ℕ) (xs : List ℕ) → All (λ x. x < p) xs → Fresh p xs
Fresh-of_below p [] h = tt
Fresh-of_below p (x ∷ xs) h = (omega arith, Fresh-of_below p xs h.1)

below_mono : (p q : ℕ) (xs : List ℕ) → p ≤ q → All (λ x. x < p) xs → All (λ x. x < q) xs
below_mono p q [] le h = tt
below_mono p q (x ∷ xs) le h = (omega arith, below_mono p q xs le h.1)

-- The loop frees the `n` pages that fit, if it has more rounds than that.
free_loop-IsFree :
    (fuel n p vend : ℕ) (m : Kmem) (xs : List ℕ)
    → n < fuel
    → p + n * page_size ≤ vend
    → vend < p + n * page_size + page_size
    → IsRange m.kernel_end p vend
    → All (λ x. x < p) xs
    → IsFree m xs
    → (m' : Kmem) × (free_loop fuel p vend m ≡ ok m') × IsFree m' (push_pages n p xs)
unfolding free_loop
free_loop-IsFree zero n p vend m xs f a b r bl free = absurd (omega arith)
free_loop-IsFree (suc fuel) zero p vend m xs f a b r bl free = (m, rw (no_room, free_loop), free)
  where
    no_room : leb (p + page_size) vend ≡ false
    no_room = ground arith
free_loop-IsFree (suc fuel) (suc n) p vend m xs f a b r bl free =
    let al = r.aligned in
    let lo = r.after_kernel in
    let mp = r.mapped in
    let hi = r.within in
    let page : IsPage m.kernel_end p = record { aligned = al; above = lo; below = omega arith } in
    let put = freed-IsFree m xs free p page (Fresh-of_below p xs bl) (omega arith) in
    let below' : All (λ x. x < p + page_size) (p ∷ xs) =
      (omega arith, below_mono p (p + page_size) xs (omega arith) bl) in
    let rest =
      free_loop-IsFree fuel n (p + page_size) vend (freed m p) (p ∷ xs) (omega arith) (omega arith)
        (omega arith)
        (record {
          aligned = omega arith;
          after_kernel = omega arith;
          mapped = omega arith;
          within = hi;
        })
        below' put in
    let room : leb (p + page_size) vend ≡ true = ground arith in
    (rest.0, rw (room, kfree-eq-freed m xs free p page, free_loop) rest.1, rest.2)

module _ (vstart vend : ℕ) (m : Kmem) (xs : List ℕ) where
  -- `freerange` puts every page that lies whole in the range on the free list, in address order, and
  -- leaves the pages that were free behind them. It ends: its fuel is enough.
  pub freerange-IsFree :
      page_round_up vstart ≤ vend
      → IsRange m.kernel_end (page_round_up vstart) vend
      → All (λ x. x < page_round_up vstart) xs
      → IsFree m xs
      → (m' : Kmem) × (freerange vstart vend m ≡ ok m')
        × IsFree m'
            (push_pages ((vend - page_round_up vstart) / page_size) (page_round_up vstart) xs)
  unfolding freerange
  freerange-IsFree le r bl free =
      free_loop-IsFree (vend / page_size + 1) ((vend - page_round_up vstart) / page_size)
        (page_round_up vstart) vend m xs (omega arith) (omega arith) (omega arith) r bl free
