-- ===== src/Container/Table.antt =====
-- `containerInit` and `createContainer` of proc.c: the table of containers and its flags.
use a.Base.{
  ℕ, zero, suc, ◌+◌, ◌-◌, ◌≤◌, ◌<◌, ◌≡◌, refl, sym, ap, ◌∙◌, ◌≢◌, ◌⊎◌, inl, inr, false, ◌&&◌, not,
  none, some, List, [], ◌∷◌, ◌++◌, arith, ◌==◌, if◌then◌else◌, Bool-cases, length, get_elem?, set,
  modify, ok, pos, minus_one, get_elem?-set_self, get_elem?-set_ne, get_elem?-modify_self,
  get_elem?-modify_ne, lt_of_get_elem?, length-modify, get_elem?-ne-none, length-set,
}
use a.Kernel.{Kernel, Container, cwaiting, cunused, no_container_line}
use a.Container.{init_loop, container_init, create_loop, create_container}

-- Each container carries the number of its slot, from `i` on.
abbrev pub Numbered : ℕ → List Container → Type 0
Numbered i [] = Unit
Numbered i (c ∷ cs) = (c.container_id ≡ i) × Numbered (i + 1) cs

-- The containers are numbered, and each has a flag.
pub record IsTable (k : Kernel) : Type 0 where
  pub numbered : Numbered 0 k.conts
  pub flags : length k.conts ≡ length k.containers

pub Numbered-modify :
    (i j : ℕ) (cs : List Container) (f : Container → Container)
    → ((c : Container) → (f c).container_id ≡ c.container_id)
    → Numbered i cs
    → Numbered i (modify cs j f)
Numbered-modify i j [] f h n = tt
Numbered-modify i zero (c ∷ cs) f h n = (h c ∙ n.0, n.1)
Numbered-modify i (suc j) (c ∷ cs) f h n = (n.0, Numbered-modify (i + 1) j cs f h n.1)

init_loop-Numbered : (i : ℕ) (cs : List Container) → Numbered i (init_loop i cs)
unfolding init_loop
init_loop-Numbered i [] = tt
init_loop-Numbered i (c ∷ cs) = (refl, init_loop-Numbered (i + 1) cs)

length-init_loop : (i : ℕ) (cs : List Container) → length (init_loop i cs) ≡ length cs
unfolding init_loop
length-init_loop i [] = refl
length-init_loop i (c ∷ cs) = ap suc (length-init_loop (i + 1) cs)

init_loop-unused :
    (i j : ℕ) (cs : List Container) {c : Container}
    → get_elem? (init_loop i cs) j ≡ some c
    → (c.state ≡ cunused) × (c.next ≡ 0) × (c.next_gva ≡ 0)
unfolding init_loop
init_loop-unused i j [] h = cc
init_loop-unused i zero (c ∷ cs) h = ground arith
init_loop-unused i (suc j) (c ∷ cs) h = init_loop-unused (i + 1) j cs h

-- `containerInit` numbers the containers, empties their page tables, and leaves them all CUNUSED
-- but for container 0, which is CWAITING.
pub container_init-IsTable :
    (k : Kernel)
    → length k.conts ≡ length k.containers
    → IsTable (container_init k)
      × ((j : ℕ) (c : Container)
          → get_elem? (container_init k).conts j ≡ some c
          → (c.next ≡ 0) × (c.next_gva ≡ 0) × (c.state ≡ (if j == 0 then cwaiting else cunused)))
unfolding container_init
container_init-IsTable k h = (
  record {
    numbered =
        Numbered-modify 0 0 (init_loop 0 k.conts) _ (λ c. refl) (init_loop-Numbered 0 k.conts);
    flags = length-modify (init_loop 0 k.conts) 0 _ ∙ length-init_loop 0 k.conts ∙ h;
  },
  slots (init_loop 0 k.conts) (λ j c. init_loop-unused 0 j k.conts {c = c}),
)
  where
    slots :
        (cs : List Container)
        → ((j : ℕ) (c : Container)
            → get_elem? cs j ≡ some c
            → (c.state ≡ cunused) × (c.next ≡ 0) × (c.next_gva ≡ 0))
        → (j : ℕ) (c : Container)
        → get_elem? (modify cs 0 (λ c. record c { state = cwaiting })) j ≡ some c
        → (c.next ≡ 0) × (c.next_gva ≡ 0) × (c.state ≡ (if j == 0 then cwaiting else cunused))
    slots [] f j c e = cc
    slots (d ∷ cs) f zero c e = ground (arith, f 0 d refl)
    slots (d ∷ cs) f (suc j) c e = ground (arith, f (suc j) c e)

-- What `createContainer` looks for, from slot `i` on.
pub record IsFirstFree (flags : List ℕ) (i id : ℕ) : Type 0 where
  pub from : i ≤ id
  pub free : get_elem? flags id ≡ some 0
  pub not_zero : id ≢ 0
  pub earlier : (j : ℕ) → i ≤ j → j < id → j ≢ 0 → get_elem? flags j ≢ some 0

-- The search has gone past slot `i`, whose container is not free.
past :
    (flags : List ℕ) (i flag j : ℕ)
    → get_elem? flags i ≡ some flag
    → ((flag == 0) && not (i == 0)) ≡ false
    → (i + 1 ≤ j → get_elem? flags j ≢ some 0)
    → i ≤ j
    → j ≢ 0
    → get_elem? flags j ≢ some 0
past flags i flag j at z later a nz = elim (Bool-cases (i == j)) [
  | inl e ↦ let e' : i ≡ j = ground arith in λ h. ground arith
  | inr ne ↦ later (ground arith)
]

create_loop-IsFirstFree :
    (cs : List Container) (i : ℕ) (flags : List ℕ)
    → Numbered i cs
    → i + length cs ≡ length flags
    → ((id : ℕ) × (create_loop cs i flags ≡ ok (some (id, id))) × IsFirstFree flags i id)
      ⊎ ((create_loop cs i flags ≡ ok none)
          × ((j : ℕ) → i ≤ j → j < length flags → j ≢ 0 → get_elem? flags j ≢ some 0))
unfolding create_loop
create_loop-IsFirstFree [] i flags n l = inr (refl, (λ j a b c. absurd (omega arith)))
create_loop-IsFirstFree (c ∷ cs) i flags n l =
    let (flag, at) = get_elem?-ne-none flags i (omega arith) in
    let cid = n.0 in
    elim (Bool-cases ((flag == 0) && not (i == 0))) [
      | inl y ↦ inl (
        i,
        ground arith,
        record {
          from = omega arith;
          free = ground arith;
          not_zero = ground arith;
          earlier = λ j a b. absurd (omega arith);
        },
      )
      | inr z ↦
          let skip : create_loop (c ∷ cs) i flags ≡ create_loop cs (i + 1) flags = ground arith in
          elim (create_loop-IsFirstFree cs (i + 1) flags n.1 (omega arith)) [
            | inl (id, e, f) ↦ inl (
              id,
              skip ∙ e,
              record {
                from = let l' = f.from in omega arith;
                free = f.free;
                not_zero = f.not_zero;
                earlier = λ j a b nz. past flags i flag j at z (λ gt. f.earlier j gt b nz) a nz;
              },
            )
            | inr (e, f) ↦
                inr (skip ∙ e, (λ j a b nz. past flags i flag j at z (λ gt. f j gt b nz) a nz))
          ]
    ]

-- `createContainer` takes the first id from 1 on whose flag is 0, sets that flag and makes the
-- container CWAITING; no other flag or container changes. If every flag from 1 on is set it returns
-- -1, and changes neither flags nor containers. It releases the lock either way.
pub create_container_lem :
    (k : Kernel)
    → IsTable k
    → k.ctable_lock ≡ false
    → (k' : Kernel) × (((id : ℕ) × (create_container k ≡ ok (pos id, k'))
          × IsFirstFree k.containers 0 id
          × (get_elem? k'.containers id ≡ some 1)
          × ((c : Container)
              → get_elem? k.conts id ≡ some c
              → get_elem? k'.conts id ≡ some (record c { state = cwaiting }))
          × ((j : ℕ)
              → id ≢ j
              → (get_elem? k'.containers j ≡ get_elem? k.containers j)
                × (get_elem? k'.conts j ≡ get_elem? k.conts j)))
        ⊎ ((create_container k ≡ ok (minus_one, k'))
            × ((j : ℕ) → j < length k.containers → j ≢ 0 → get_elem? k.containers j ≢ some 0)
            × (k'.containers ≡ k.containers)
            × (k'.conts ≡ k.conts)))
      × IsTable k'
      × (k'.ctable_lock ≡ false)
unfolding create_container
create_container_lem k t un =
    elim (create_loop-IsFirstFree k.conts 0 k.containers t.numbered
      (let fl = t.flags in omega arith)) [
        | inl (id, e, f) ↦ (
          record k {
            containers = set k.containers id 1;
            conts = modify k.conts id (λ c. record c { state = cwaiting });
            ncli = k.ncli + 1 - 1;
            ctable_lock = false;
          },
          inl (
            id,
            ground arith,
            f,
            get_elem?-set_self k.containers id 1 (lt_of_get_elem? k.containers id f.free),
            (λ c at. get_elem?-modify_self k.conts id _ at),
            (λ j ne.
                (get_elem?-set_ne k.containers id j 1 ne, get_elem?-modify_ne k.conts id j _ ne)),
          ),
          record {
            numbered = Numbered-modify 0 id k.conts _ (λ c. refl) t.numbered;
            flags = length-modify k.conts id _ ∙ t.flags ∙ sym (length-set k.containers id 1);
          },
          refl,
        )
        | inr (e, f) ↦ (
          record k {
            console = k.console ++ (no_container_line ∷ []);
            ncli = k.ncli + 1 - 1;
            ctable_lock = false;
          },
          inr (ground arith, (λ j b nz. f j (omega arith) b nz), refl, refl),
          record { numbered = t.numbered; flags = t.flags },
          refl,
        )
      ]
