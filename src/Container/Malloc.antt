-- ===== src/Container/Malloc.antt =====
-- `container_malloc` of proc.c: the page it maps, and the end of the page table.
use a.Base.{
  fault, get_elem?-eq_none, get_elem?-set_self, subst, ℕ, zero, suc, ◌+◌, ◌-◌, ◌%◌, ◌^◌, ◌≤◌, ◌<◌,
  ◌≡◌, refl, sym, ap, ◌∙◌, ◌≢◌, inl, inr, true, false, some, List, [], ◌∷◌, arith, ◌==◌, Bool-cases,
  length, get_elem?, set, modify, ok, fault, ◌>>=◌, get_elem?-modify_self, get_elem?-modify_ne,
  get_elem?-ne-none, get_elem?-eq_none, get_elem?-set_self, lt_of_get_elem?, length-modify,
}
use a.Kernel.{Kernel, Proc, release_ctable, Container}
use a.Kalloc.{Kmem, kalloc}
use a.Kalloc.FreeList.{IsFree, kalloc-cons, kalloc-nil}
use a.Container.{log_mapping, map_page, malloc_loop, container_malloc}
use a.Container.Table.{Numbered, Numbered-modify}

Numbered-id :
    (i m : ℕ) (cs : List Container) {c : Container}
    → Numbered i cs
    → get_elem? cs m ≡ some c
    → c.container_id ≡ i + m
Numbered-id i m [] n h = cc
Numbered-id i zero (c ∷ cs) n h = ground arith
Numbered-id i (suc m) (c ∷ cs) n h = omega (arith, Numbered-id (i + 1) m cs n.1 h)

-- The running process, at slot `s`, is in container `j`, which stands in slot `j` as `c`.
pub record InContainer (k : Kernel) (s : ℕ) (p : Proc) (j : ℕ) : Type 0 where
  pub running : (k.current ≡ suc s) × (get_elem? k.procs s ≡ some p) × (p.container_id ≡ j)
  pub numbered : Numbered 0 k.conts

-- A round at a slot that holds the container, and at one that does not.
malloc_loop-hit :
    (n i bytes pid : ℕ) (k : Kernel) (s : ℕ) (p : Proc) (j : ℕ) (c : Container)
    → InContainer k s p j
    → get_elem? k.conts i ≡ some c
    → c.container_id ≡ j
    → malloc_loop (suc n) i bytes pid k
      ≡ (map_page i c bytes pid k >>= malloc_loop n (i + 1) bytes pid)
unfolding malloc_loop
malloc_loop-hit n i bytes pid k s p j c h at e =
    let cu = h.running.0 in
    let pr = h.running.1 in
    let pc = h.running.2 in
    let t : (c.container_id == p.container_id) ≡ true = ground arith in ground arith

malloc_loop-miss :
    (n i bytes pid : ℕ) (k : Kernel) (s : ℕ) (p : Proc) (j : ℕ) (c : Container)
    → InContainer k s p j
    → get_elem? k.conts i ≡ some c
    → c.container_id ≢ j
    → malloc_loop (suc n) i bytes pid k ≡ malloc_loop n (i + 1) bytes pid k
unfolding malloc_loop
malloc_loop-miss n i bytes pid k s p j c h at e =
    let cu = h.running.0 in
    let pr = h.running.1 in
    let pc = h.running.2 in
    let t : (c.container_id == p.container_id) ≡ false = ground arith in ground arith

malloc_loop-zero : (i bytes pid : ℕ) (k : Kernel) → malloc_loop zero i bytes pid k ≡ ok k
unfolding malloc_loop
malloc_loop-zero i bytes pid k = refl

-- Behind the container's slot nothing more happens.
malloc_loop-skip :
    (n i bytes pid : ℕ) (k : Kernel) (s : ℕ) (p : Proc) (j : ℕ)
    → InContainer k s p j
    → i + n ≡ length k.conts
    → j < i
    → malloc_loop n i bytes pid k ≡ ok k
malloc_loop-skip zero i bytes pid k s p j h e lt = malloc_loop-zero i bytes pid k
malloc_loop-skip (suc n) i bytes pid k s p j h e lt =
    let (c, at) = get_elem?-ne-none k.conts i (omega arith) in
    let cid : c.container_id ≡ 0 + i = Numbered-id 0 i k.conts h.numbered at in
    malloc_loop-miss n i bytes pid k s p j c h at (omega arith)
    ∙ malloc_loop-skip n (i + 1) bytes pid k s p j h (omega arith) (omega arith)

-- the state after the page `x` was mapped
abbrev unlogged : ℕ → Container → ℕ → ℕ → ℕ → Kmem → Kernel → Kernel
unlogged j c bytes pid x m k = record k {
  kmem = m;
  conts = modify k.conts j (λ c. record c {
    next_gva = (c.next_gva + bytes) % 2 ^ 32;
    page = set c.page c.next (record { gva = c.next_gva; hva = x; pid = pid });
    next = c.next + 1;
  });
}

abbrev mapped : ℕ → Container → ℕ → ℕ → ℕ → Kmem → Kernel → Kernel
mapped j c bytes pid x m k = log_mapping c.next_gva x pid (unlogged j c bytes pid x m k)

map_page-mapped :
    (j bytes pid x : ℕ) (c : Container) (m : Kmem) (k : Kernel)
    → c.next < length c.page
    → kalloc k.kmem ≡ ok (x, m)
    → map_page j c bytes pid k ≡ ok (mapped j c bytes pid x m k)
unfolding map_page
map_page-mapped j bytes pid x c m k lt got =
    let (old, at) = get_elem?-ne-none c.page c.next lt in ground arith

-- what `log_mapping` leaves alone
log_mapping-same :
    (gva hva pid : ℕ) (k : Kernel)
    → ((log_mapping gva hva pid k).current ≡ k.current)
      × ((log_mapping gva hva pid k).procs ≡ k.procs)
      × ((log_mapping gva hva pid k).conts ≡ k.conts)
      × ((log_mapping gva hva pid k).kmem ≡ k.kmem)
      × ((log_mapping gva hva pid k).ctable_lock ≡ k.ctable_lock)
log_mapping-same gva hva pid k =
    (ground arith, ground arith, ground arith, ground arith, ground arith)

InContainer-mapped :
    (j bytes pid x : ℕ) (c : Container) (m : Kmem) (k : Kernel) (s : ℕ) (p : Proc)
    → InContainer k s p j
    → InContainer (mapped j c bytes pid x m k) s p j
InContainer-mapped j bytes pid x c m k s p h =
    let same = log_mapping-same c.next_gva x pid (unlogged j c bytes pid x m k) in
    record {
      running = (same.0 ∙ h.running.0, ap (λ ps. get_elem? ps s) same.1 ∙ h.running.1, h.running.2);
      numbered =
          subst (Numbered 0) (sym same.2) (Numbered-modify 0 j k.conts _ (λ c. refl) h.numbered);
    }

module _ (bytes pid x : ℕ) (m : Kmem) (k : Kernel) (s : ℕ) (p : Proc) (j : ℕ) (c : Container)
    (h : InContainer k s p j) (at : get_elem? k.conts j ≡ some c) (lt : c.next < length c.page)
    (got : kalloc k.kmem ≡ ok (x, m)) where
  length-mapped : length (mapped j c bytes pid x m k).conts ≡ length k.conts
  length-mapped =
      ap length (log_mapping-same c.next_gva x pid (unlogged j c bytes pid x m k)).2
      ∙ length-modify k.conts j _

  malloc_loop-mapped :
      (n i : ℕ)
      → i + n ≡ length k.conts
      → i ≤ j
      → malloc_loop n i bytes pid k ≡ ok (mapped j c bytes pid x m k)
  malloc_loop-mapped zero i e le = absurd (omega (arith, lt_of_get_elem? k.conts j at))
  malloc_loop-mapped (suc n) i e le = elim (Bool-cases (i == j)) [
    | inl y ↦
        let ij : i ≡ j = ground arith in
        let cid : c.container_id ≡ j = omega (arith, Numbered-id 0 j k.conts h.numbered at) in
        let hit = malloc_loop-hit n i bytes pid k s p j c h (ap (get_elem? k.conts) ij ∙ at) cid in
        let filled = map_page-mapped i bytes pid x c m k lt got in
        let rest =
          malloc_loop-skip n (i + 1) bytes pid (mapped j c bytes pid x m k) s p j
            (InContainer-mapped j bytes pid x c m k s p h) (omega (arith, length-mapped))
            (omega arith) in
        hit ∙ rw (filled, ij) (rw ij at rest)
    | inr z ↦
        let (d, atd) = get_elem?-ne-none k.conts i (omega arith) in
        let cid : d.container_id ≡ 0 + i = Numbered-id 0 i k.conts h.numbered atd in
        malloc_loop-miss n i bytes pid k s p j d h atd (ground arith)
        ∙ malloc_loop-mapped n (i + 1) (omega arith) (ground arith)
  ]

map_page-full :
    (j bytes pid : ℕ) (c : Container) (k : Kernel)
    → length c.page ≤ c.next
    → map_page j c bytes pid k ≡ fault
unfolding map_page
map_page-full j bytes pid c k le = let e = get_elem?-eq_none c.page c.next le in ground arith

malloc_loop-full :
    (bytes pid : ℕ) (k : Kernel) (s : ℕ) (p : Proc) (j : ℕ) (c : Container)
    → InContainer k s p j
    → get_elem? k.conts j ≡ some c
    → length c.page ≤ c.next
    → (n i : ℕ) → i + n ≡ length k.conts
    → i ≤ j
    → malloc_loop n i bytes pid k ≡ fault
malloc_loop-full bytes pid k s p j c h at ge zero i e le =
    absurd (omega (arith, lt_of_get_elem? k.conts j at))
malloc_loop-full bytes pid k s p j c h at ge (suc n) i e le = elim (Bool-cases (i == j)) [
  | inl y ↦
      let ij : i ≡ j = ground arith in
      let cid : c.container_id ≡ j = omega (arith, Numbered-id 0 j k.conts h.numbered at) in
      malloc_loop-hit n i bytes pid k s p j c h (ap (get_elem? k.conts) ij ∙ at) cid
      ∙ rw (map_page-full i bytes pid c k ge)
  | inr z ↦
      let (d, atd) = get_elem?-ne-none k.conts i (omega arith) in
      let cid : d.container_id ≡ 0 + i = Numbered-id 0 i k.conts h.numbered atd in
      malloc_loop-miss n i bytes pid k s p j d h atd (ground arith)
      ∙ malloc_loop-full bytes pid k s p j c h at ge n (i + 1) (omega arith) (ground arith)
]

release_ctable-held :
    (k : Kernel)
    → k.ctable_lock ≡ true
    → release_ctable k ≡ ok (record k { ctable_lock = false; ncli = k.ncli - 1 })
unfolding release_ctable
release_ctable-held k h = rw h

-- `container_malloc` by a process of container `j`, whose page table has room, takes the next free
-- page and enters it, with the pid, under the container's next address, which moves on by the bytes
-- asked for. Only that container changes, and the page is no longer free.
pub container_malloc_lem :
    (bytes pid x : ℕ) (xs : List ℕ) (k : Kernel) (s : ℕ) (p : Proc) (j : ℕ) (c : Container)
    → InContainer k s p j
    → get_elem? k.conts j ≡ some c
    → c.next < length c.page
    → IsFree k.kmem (x ∷ xs)
    → k.ctable_lock ≡ false
    → (k' : Kernel) × (container_malloc bytes pid k ≡ ok k')
      × (get_elem? k'.conts j
          ≡ some (record c {
            next_gva = (c.next_gva + bytes) % 2 ^ 32;
            page = set c.page c.next (record { gva = c.next_gva; hva = x; pid = pid });
            next = c.next + 1;
          }))
      × ((i : ℕ) → j ≢ i → get_elem? k'.conts i ≡ get_elem? k.conts i)
      × IsFree k'.kmem xs
      × (k'.procs ≡ k.procs)
      × (k'.ctable_lock ≡ false)
unfolding container_malloc
container_malloc_lem bytes pid x xs k s p j c h at lt free un =
    let (m, got, free', fresh, page) = kalloc-cons k.kmem x xs free in
    let k1 = record k { ctable_lock = true; ncli = k.ncli + 1 } in
    let h1 : InContainer k1 s p j = record { running = h.running; numbered = h.numbered } in
    let run =
      malloc_loop-mapped bytes pid x m k1 s p j c h1 at lt got (length k.conts) 0 (omega arith)
        (omega arith) in
    let same = log_mapping-same c.next_gva x pid (unlogged j c bytes pid x m k1) in
    let k2 = mapped j c bytes pid x m k1 in
    (
      record k2 { ctable_lock = false; ncli = k2.ncli - 1 },
      rw (un, run) (release_ctable-held k2 same.4),
      ap (λ cs. get_elem? cs j) same.2 ∙ get_elem?-modify_self k.conts j _ at,
      (λ i ne. ap (λ cs. get_elem? cs i) same.2 ∙ get_elem?-modify_ne k.conts j i _ ne),
      subst (λ q. IsFree q xs) (sym same.3) free',
      same.1,
      refl,
    )

-- Without a free page `container_malloc` still enters a mapping, to the null page.
pub container_malloc-no_memory :
    (bytes pid : ℕ) (k : Kernel) (s : ℕ) (p : Proc) (j : ℕ) (c : Container)
    → InContainer k s p j
    → get_elem? k.conts j ≡ some c
    → c.next < length c.page
    → IsFree k.kmem []
    → k.ctable_lock ≡ false
    → (k' : Kernel) × (c' : Container) × (container_malloc bytes pid k ≡ ok k')
      × (get_elem? k'.conts j ≡ some c')
      × (c'.next ≡ c.next + 1)
      × (get_elem? c'.page c.next ≡ some (record { gva = c.next_gva; hva = 0; pid = pid }))
unfolding container_malloc
container_malloc-no_memory bytes pid k s p j c h at lt free un =
    let k1 = record k { ctable_lock = true; ncli = k.ncli + 1 } in
    let h1 : InContainer k1 s p j = record { running = h.running; numbered = h.numbered } in
    let run =
      malloc_loop-mapped bytes pid 0 k.kmem k1 s p j c h1 at lt (kalloc-nil k.kmem free)
        (length k.conts) 0 (omega arith) (omega arith) in
    let same = log_mapping-same c.next_gva 0 pid (unlogged j c bytes pid 0 k.kmem k1) in
    let k2 = mapped j c bytes pid 0 k.kmem k1 in
    (
      record k2 { ctable_lock = false; ncli = k2.ncli - 1 },
      _,
      rw (un, run) (release_ctable-held k2 same.4),
      ap (λ cs. get_elem? cs j) same.2 ∙ get_elem?-modify_self k.conts j _ at,
      refl,
      get_elem?-set_self c.page c.next _ lt,
    )

-- When the container's page table is full, the next `container_malloc` of one of its processes writes
-- past the end of the table.
pub container_malloc-full :
    (bytes pid : ℕ) (k : Kernel) (s : ℕ) (p : Proc) (j : ℕ) (c : Container)
    → InContainer k s p j
    → get_elem? k.conts j ≡ some c
    → length c.page ≤ c.next
    → k.ctable_lock ≡ false
    → container_malloc bytes pid k ≡ fault
unfolding container_malloc
container_malloc-full bytes pid k s p j c h at ge un =
    let k1 = record k { ctable_lock = true; ncli = k.ncli + 1 } in
    let h1 : InContainer k1 s p j = record { running = h.running; numbered = h.numbered } in
    let run =
      malloc_loop-full bytes pid k1 s p j c h1 at ge (length k.conts) 0 (omega arith)
        (omega arith) in
    rw (un, run)
