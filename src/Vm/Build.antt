-- ===== src/Vm/Build.antt =====
-- Runs to their end of the operations of vm.c that build address spaces.
use a.Base.{
  ℕ, zero, suc, ◌+◌, ◌-◌, ◌*◌, ◌/◌, ◌%◌, ◌^◌, ◌≤◌, ◌<◌, ◌≡◌, inl, inr, false, not, ◌==◌, ltb, leb,
  arith, Outcome, pos, List, [], ◌∷◌, All, ℤ, negsuc, Bool-cases,
}
use a.Kalloc.{Kmem, page_size, kern_base, phys_stop, v2p}
use a.Vm.{p2v, pte_addr, pte_w, pte_u, present, clear_page}
use a.Kalloc.{page_round_up}
use a.Vm.{pte_flags}
use a.Vm.Space.{
  copy_page, dev_space, kmap_loop, setupkvm, allocuvm_loop, allocuvm, copy_loop, copyuvm, Kmap,
  kmap,
}
use a.Vm.Returns.{
  Ends, Ends-ok, Ends-panic, Ends-bind, Ends-if, Ends-elim, kalloc-Ends, kfree-Ends, walkpgdir-Ends,
  mappages-Ends, deallocuvm-Ends, freevm-Ends,
}

Ends-int {ℓ} :
    {A : Type ℓ} (r : ℤ) (x y : Outcome A)
    → Ends x
    → Ends y
    → Ends (elim r [ pos _ ↦ x | negsuc _ ↦ y ])
Ends-int (pos n) x y h g = h
Ends-int (negsuc n) x y h g = g

kmap_loop-Ends :
    (pgdir : ℕ) (ks : List Kmap) (m : Kmem)
    → All (λ k. k.virt < 2 ^ 32) ks
    → Ends (kmap_loop pgdir ks m)
unfolding kmap_loop
kmap_loop-Ends pgdir [] m h = Ends-ok (pgdir, m)
kmap_loop-Ends pgdir (k ∷ ks) m h =
    Ends-bind _ _
      (mappages-Ends pgdir k.virt ((k.phys_end + 2 ^ 32 - k.phys_start) % 2 ^ 32) k.phys_start
        k.perm m h.0)
      (λ r.
        Ends-int r.0 _ _ (kmap_loop-Ends pgdir ks r.1 h.1)
          (Ends-bind _ _ (freevm-Ends pgdir r.1) (λ m. Ends-ok (0, m))))

-- `setupkvm` returns or panics.
pub setupkvm-Ends : (data_start : ℕ) (m : Kmem) → data_start < 2 ^ 32 → Ends (setupkvm data_start m)
unfolding setupkvm
setupkvm-Ends data_start m low = Ends-bind _ _ (kalloc-Ends m) (λ r.
    Ends-if (r.0 == 0) _ _ (Ends-ok (0, r.1)) (
      Ends-if (ltb dev_space (p2v phys_stop)) _ _ (Ends-panic _) (
        kmap_loop-Ends r.0 (kmap data_start) (record r.1 { word = clear_page r.1.word r.0 })
          (omega arith, (omega arith, (low, (omega arith, tt)))))))

allocuvm_loop-Ends :
    (n pgdir a oldsz newsz : ℕ) (m : Kmem)
    → newsz ≤ kern_base
    → newsz ≤ a + n * page_size
    → Ends (allocuvm_loop (suc n) pgdir a oldsz newsz m)
unfolding allocuvm_loop
allocuvm_loop-Ends zero pgdir a oldsz newsz m low room =
    Ends-elim (ltb a newsz) _ _ (λ go. absurd (let lt : a < newsz = ground arith in omega arith))
      (λ e. Ends-ok (newsz, m))
allocuvm_loop-Ends (suc n) pgdir a oldsz newsz m low room =
    Ends-elim (ltb a newsz) _ _
      (λ go.
        let lt : a < newsz = ground arith in
        Ends-bind _ _ (kalloc-Ends m) (λ r.
          Ends-elim (r.0 == 0) _ _
            (λ e. Ends-bind _ _ (deallocuvm-Ends pgdir newsz oldsz r.1 low) (λ d. Ends-ok (0, d.1)))
            (λ e.
              Ends-bind _ _
                (mappages-Ends pgdir a page_size (v2p r.0) (pte_w + pte_u)
                  (record r.1 { word = clear_page r.1.word r.0 }) (omega arith))
                (λ s.
                  Ends-int s.0 _ _
                    (allocuvm_loop-Ends n pgdir (a + page_size) oldsz newsz s.1 low (omega arith))
                    (Ends-bind _ _ (deallocuvm-Ends pgdir newsz oldsz s.1 low)
                      (λ d. Ends-bind _ _ (kfree-Ends r.0 d.1) (λ m. Ends-ok (0, m))))))))
      (λ e. Ends-ok (newsz, m))

-- `allocuvm` returns or panics for all sizes, whatever the memory holds.
pub allocuvm-Ends : (pgdir oldsz newsz : ℕ) (m : Kmem) → Ends (allocuvm pgdir oldsz newsz m)
unfolding allocuvm
allocuvm-Ends pgdir oldsz newsz m = elim (Bool-cases (leb kern_base newsz)) [
  | inl high ↦ rw high (Ends-ok (0, m))
  | inr low ↦
      let e : newsz / page_size + 2 ≡ suc (newsz / page_size + 1) = omega arith in
      let le : newsz ≤ kern_base = ground arith in
      rw low (
        Ends-if (ltb newsz oldsz) _ _ (Ends-ok (oldsz, m)) (
          rw e (
            allocuvm_loop-Ends (newsz / page_size + 1) pgdir (page_round_up oldsz) oldsz newsz m le
              (omega arith))))
]

copy_loop-Ends :
    (n d pgdir i sz : ℕ) (m : Kmem)
    → sz ≤ kern_base
    → sz ≤ i + n * page_size
    → Ends (copy_loop (suc n) d pgdir i sz m)
unfolding copy_loop
copy_loop-Ends zero d pgdir i sz m low room =
    Ends-elim (ltb i sz) _ _ (λ go. absurd (let lt : i < sz = ground arith in omega arith))
      (λ e. Ends-ok (d, m))
copy_loop-Ends (suc n) d pgdir i sz m low room =
    Ends-elim (ltb i sz) _ _
      (λ go.
        let lt : i < sz = ground arith in
        Ends-bind _ _ (walkpgdir-Ends pgdir i false m) (λ w. Ends-if (w.0 == 0) _ _ (Ends-panic _) (
          Ends-if (not (present (w.1.word w.0))) _ _ (Ends-panic _) (
            Ends-bind _ _ (kalloc-Ends w.1) (λ r.
              Ends-elim (r.0 == 0) _ _
                (λ e. Ends-bind _ _ (freevm-Ends d r.1) (λ m. Ends-ok (0, m)))
                (λ e.
                  Ends-bind _ _
                    (mappages-Ends d i page_size (v2p r.0) (pte_flags (w.1.word w.0))
                      (record r.1 { word = copy_page r.1.word r.0 (p2v (pte_addr (w.1.word w.0))) })
                      (omega arith))
                    (λ s.
                      Ends-int s.0 _ _
                        (copy_loop-Ends n d pgdir (i + page_size) sz s.1 low (omega arith))
                        (Ends-bind _ _ (kfree-Ends r.0 s.1)
                          (λ m. Ends-bind _ _ (freevm-Ends d m) (λ m. Ends-ok (0, m)))))))))))
      (λ e. Ends-ok (d, m))

-- `copyuvm` of a size in the user's half returns or panics, whatever the memory and both address spaces
-- hold: each loop of it, of `setupkvm`, of `mappages`, and of `freevm` and `deallocuvm` where a page
-- lacks, ends.
pub copyuvm-Ends :
    (data_start pgdir sz : ℕ) (m : Kmem)
    → data_start < 2 ^ 32
    → sz ≤ kern_base
    → Ends (copyuvm data_start pgdir sz m)
unfolding copyuvm
copyuvm-Ends data_start pgdir sz m ld low =
    let e : sz / page_size + 2 ≡ suc (sz / page_size + 1) = omega arith in
    Ends-bind _ _ (setupkvm-Ends data_start m ld) (λ r.
      Ends-if (r.0 == 0) _ _ (Ends-ok (0, r.1))
        (rw e (copy_loop-Ends (sz / page_size + 1) r.0 pgdir 0 sz r.1 low (omega arith))))
