-- ===== src/Vm/Returns.antt =====
-- Runs of the loops of vm.c to their end, whatever the page tables hold.
use a.Base.{
  ℕ, zero, suc, ◌+◌, ◌-◌, ◌*◌, ◌/◌, ◌%◌, ◌^◌, ◌≤◌, ◌<◌, ◌≡◌, refl, sym, Bool, true, false, ◌==◌,
  ltb, if◌then◌else◌, arith, Outcome, ok, panic, fault, ◌>>=◌, subst,
}
use a.Kalloc.{Kmem, kalloc, page_size, kern_base}
use a.Vm.{present, walkpgdir}
use a.Kalloc.{kfree, acquire, release, acquire_if_used, release_if_used, page_round_up}
use a.Vm.{map_loop, mappages, page_round_down, rounds}
use a.Vm.Space.{dealloc_loop, deallocuvm, table_loop, freevm, free_pte, next_table}

-- The code returns or panics.
unfoldable pub Ends {ℓ} : {A : Type ℓ} → Outcome A → Type 0
Ends (ok a) = Unit
Ends panic = Unit
Ends fault = ⊥

pub Ends-ok {ℓ} : {A : Type ℓ} (a : A) → Ends (ok a)
unfolding Ends
Ends-ok a = tt

pub Ends-panic {ℓ} : (A : Type ℓ) → Ends {A = A} panic
unfolding Ends
Ends-panic A = tt

pub Ends-bind {ℓ κ} :
    {A : Type ℓ} {B : Type κ} (o : Outcome A) (f : A → Outcome B)
    → Ends o
    → ((a : A) → Ends (f a))
    → Ends (o >>= f)
unfolding Ends
Ends-bind (ok a) f h g = g a
Ends-bind panic f h g = tt
Ends-bind fault f h g = elim h [ ]

pub Ends-if {ℓ} :
    {A : Type ℓ} (b : Bool) (x y : Outcome A) → Ends x → Ends y → Ends (if b then x else y)
Ends-if true x y h g = h
Ends-if false x y h g = g

pub Ends-elim {ℓ} :
    {A : Type ℓ} (b : Bool) (x y : Outcome A)
    → (b ≡ true → Ends x)
    → (b ≡ false → Ends y)
    → Ends (elim b [ true ↦ x | false ↦ y ])
Ends-elim true x y h g = h refl
Ends-elim false x y h g = g refl

pub ruleset ending = (Ends-ok, Ends-panic, Ends-bind, Ends-if)

acquire_if_used-Ends : (m : Kmem) → Ends (acquire_if_used m)
unfolding acquire_if_used acquire
acquire_if_used-Ends m = search ending

release_if_used-Ends : (m : Kmem) → Ends (release_if_used m)
unfolding release_if_used release
release_if_used-Ends m = search ending

pub kalloc-Ends : (m : Kmem) → Ends (kalloc m)
unfolding kalloc
kalloc-Ends m = search (ending, acquire_if_used-Ends, release_if_used-Ends)

pub kfree-Ends : (v : ℕ) (m : Kmem) → Ends (kfree v m)
unfolding kfree
kfree-Ends v m = search (ending, acquire_if_used-Ends, release_if_used-Ends)

pub walkpgdir-Ends : (pgdir va : ℕ) (alloc : Bool) (m : Kmem) → Ends (walkpgdir pgdir va alloc m)
unfolding walkpgdir
walkpgdir-Ends pgdir va alloc m = search (ending, kalloc-Ends)

write_free :
    (n : ℕ) (pgdir pte a oldsz : ℕ) (m : Kmem)
    → ((m : Kmem) → Ends (dealloc_loop n pgdir a oldsz m))
    → Ends (free_pte pte m >>= dealloc_loop n pgdir a oldsz)
write_free n pgdir pte a oldsz m h = search (ending, kfree-Ends, h)

-- A round of `mappages` at a page before the last.
map_loop-Ends :
    (n : ℕ) (pgdir a last pa perm : ℕ) (m : Kmem)
    → a < 2 ^ 32
    → last < 2 ^ 32
    → (last + 2 ^ 32 - a) % 2 ^ 32 ≡ n * page_size
    → Ends (map_loop (suc n) pgdir a last pa perm m)
unfolding map_loop
map_loop-Ends zero pgdir a last pa perm m la ll e =
    let is_last : (a == last) ≡ true = ground arith in rw is_last (search (ending, walkpgdir-Ends))
map_loop-Ends (suc n) pgdir a last pa perm m la ll e =
    let is_last : (a == last) ≡ false = ground arith in
    let ih : (pa : ℕ) (m : Kmem)
        → Ends (map_loop (suc n) pgdir ((a + page_size) % 2 ^ 32) last pa perm m) =
      λ pa m.
        map_loop-Ends n pgdir ((a + page_size) % 2 ^ 32) last pa perm m (omega arith) ll
          (omega arith) in
    rw is_last (search (ending, walkpgdir-Ends, ih))

-- `mappages` returns or panics, around the end of the address space too.
pub mappages-Ends :
    (pgdir va size pa perm : ℕ) (m : Kmem) → va < 2 ^ 32 → Ends (mappages pgdir va size pa perm m)
unfolding mappages
mappages-Ends pgdir va size pa perm m lv =
    let a = page_round_down va in
    let last = page_round_down ((va + size + 2 ^ 32 - 1) % 2 ^ 32) in
    let e : rounds a last ≡ suc ((last + 2 ^ 32 - a) % 2 ^ 32 / page_size) = omega arith in
    subst (λ n. Ends (map_loop n pgdir a last pa perm m)) (sym e)
      (map_loop-Ends ((last + 2 ^ 32 - a) % 2 ^ 32 / page_size) pgdir a last pa perm m (omega arith)
        (omega arith) (omega arith))

-- A round of `deallocuvm`, if the two it may go on to end.
dealloc_round :
    (n : ℕ) (pgdir a oldsz : ℕ) (m : Kmem)
    → ((m : Kmem) → Ends (dealloc_loop n pgdir (next_table a) oldsz m))
    → ((m : Kmem) → Ends (dealloc_loop n pgdir ((a + page_size) % 2 ^ 32) oldsz m))
    → Ends (do
      (pte, m) ← walkpgdir pgdir a false m
      elim (pte == 0) [
        | true ↦ dealloc_loop n pgdir (next_table a) oldsz m
        | false ↦ free_pte pte m >>= dealloc_loop n pgdir ((a + page_size) % 2 ^ 32) oldsz
      ])
dealloc_round n pgdir a oldsz m no_table next = Ends-bind _ _ (walkpgdir-Ends pgdir a false m) (λ r.
    Ends-elim (r.0 == 0) _ _ (λ e. no_table r.1)
      (λ e. write_free n pgdir r.0 ((a + page_size) % 2 ^ 32) oldsz r.1 next))

dealloc_loop-Ends :
    (n : ℕ) (pgdir a oldsz : ℕ) (m : Kmem)
    → a % page_size ≡ 0
    → oldsz ≤ kern_base
    → oldsz ≤ a + n * page_size
    → Ends (dealloc_loop (suc n) pgdir a oldsz m)
unfolding dealloc_loop
dealloc_loop-Ends zero pgdir a oldsz m al low room =
    Ends-elim (ltb a oldsz) _ _ (λ go. absurd (let lt : a < oldsz = ground arith in omega arith))
      (λ e. Ends-ok m)
dealloc_loop-Ends (suc n) pgdir a oldsz m al low room =
    Ends-elim (ltb a oldsz) _ _
      (λ go.
        let lt : a < oldsz = ground arith in
        dealloc_round (suc n) pgdir a oldsz m
          (λ m. dealloc_loop-Ends n pgdir (next_table a) oldsz m (omega arith) low (omega arith))
          (λ m.
            dealloc_loop-Ends n pgdir ((a + page_size) % 2 ^ 32) oldsz m (omega arith) low
              (omega arith)))
      (λ e. Ends-ok m)

pub deallocuvm-Ends :
    (pgdir oldsz newsz : ℕ) (m : Kmem) → oldsz ≤ kern_base → Ends (deallocuvm pgdir oldsz newsz m)
unfolding deallocuvm
deallocuvm-Ends pgdir oldsz newsz m low =
    let e : oldsz / page_size + 2 ≡ suc (oldsz / page_size + 1) = omega arith in
    let run : Ends (dealloc_loop (oldsz / page_size + 2) pgdir (page_round_up newsz) oldsz m) =
      rw e (
        dealloc_loop-Ends (oldsz / page_size + 1) pgdir (page_round_up newsz) oldsz m (omega arith)
          low (omega arith)) in
    search (ending, run)

table_loop-Ends : (n i pgdir : ℕ) (m : Kmem) → Ends (table_loop n i pgdir m)
unfolding table_loop
table_loop-Ends zero i pgdir m = Ends-ok m
table_loop-Ends (suc n) i pgdir m =
    Ends-elim (present (m.word (pgdir + 4 * i))) _ _
      (λ e. Ends-bind _ _ (kfree-Ends _ m) (λ m. table_loop-Ends n (i + 1) pgdir m))
      (λ e. table_loop-Ends n (i + 1) pgdir m)

pub freevm-Ends : (pgdir : ℕ) (m : Kmem) → Ends (freevm pgdir m)
unfolding freevm
freevm-Ends pgdir m =
    let d = deallocuvm-Ends pgdir kern_base 0 m (omega arith) in
    search (ending, d, table_loop-Ends, kfree-Ends)
