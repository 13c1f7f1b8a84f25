-- ===== src/Tests/Containers.antt =====
-- The containers of proc.c at fixed inputs.
use a.Base.{
  ℕ, ◌<◌, ◌≡◌, refl, ◌≢◌, ◌⊎◌, false, some, [], ◌∷◌, arith, ◌==◌, if◌then◌else◌, get_elem?, ok, pos,
  minus_one,
}
use a.Kernel.{Kernel, Proc, running, Container, cwaiting, cunused}
use a.Kalloc.FreeList.{IsFree}
use a.Proc.{mark_killed}
use a.Proc.Pids.{PidsOk}
use a.Container.{create_container, destroy_container, container_malloc}
use a.Container.Table.{IsTable, IsFirstFree, create_container_lem}
use a.Container.Destroy.{destroy_container_lem}
use a.Container.Members.{IsCurrent}
use a.Container.Malloc.{InContainer, container_malloc_lem}
use a.Tests.Data.{
  kernel0, kernel1, sleeper, container, kmem0-IsFree, kmem_empty, kernel0-PidsOk, kernel0-IsTable,
  page1, page2,
}

create_second : (k : Kernel) × (create_container kernel0 ≡ ok (pos 1, k))
unfolding create_container
create_second = (_, refl)

create_container_lem_example :
    (k' : Kernel) × (((id : ℕ) × (create_container kernel0 ≡ ok (pos id, k'))
        × IsFirstFree kernel0.containers 0 id
        × (get_elem? k'.containers id ≡ some 1)
        × ((c : Container)
            → get_elem? kernel0.conts id ≡ some c
            → get_elem? k'.conts id ≡ some (record c { state = cwaiting }))
        × ((j : ℕ)
            → id ≢ j
            → (get_elem? k'.containers j ≡ get_elem? kernel0.containers j)
              × (get_elem? k'.conts j ≡ get_elem? kernel0.conts j)))
      ⊎ ((create_container kernel0 ≡ ok (minus_one, k'))
          × ((j : ℕ) → j < 3 → j ≢ 0 → get_elem? kernel0.containers j ≢ some 0)
          × (k'.containers ≡ kernel0.containers)
          × (k'.conts ≡ kernel0.conts)))
    × IsTable k'
    × (k'.ctable_lock ≡ false)
create_container_lem_example = create_container_lem kernel0 kernel0-IsTable refl

destroy_container_lem_example :
    (k' : Kernel) × (destroy_container 2 kernel0 ≡ ok k')
    × ((j : ℕ) (p : Proc)
        → get_elem? kernel0.procs j ≡ some p
        → p.pid ≢ 0
        → get_elem? k'.procs j ≡ some (if p.container_id == 2 then mark_killed p else p))
    × (get_elem? k'.conts 2 ≡ some (container 2 cunused))
    × (get_elem? k'.containers 2 ≡ some 0)
    × PidsOk k'
    × ((k'.ctable_lock ≡ false) × (k'.ptable_lock ≡ false))
destroy_container_lem_example =
    destroy_container_lem 2 kernel0 (container 2 cwaiting) 1 refl refl kernel0-PidsOk refl refl

abbrev runner : Proc
runner = record sleeper { state = running }

kernel1-IsCurrent : IsCurrent kernel1 1 runner
kernel1-IsCurrent = record { current = refl; at = refl; live = omega arith }

kernel1-InContainer : InContainer kernel1 1 runner 2
kernel1-InContainer = record { running = (refl, refl, refl); numbered = omega arith }

container_malloc_lem_example :
    (k' : Kernel) × (container_malloc 8 2 kernel1 ≡ ok k')
    × (get_elem? k'.conts 2
        ≡ some (record (container 2 cwaiting) {
          next_gva = 72;
          page =
              record { gva = 64; hva = page2; pid = 2 } ∷ record { gva = 0; hva = 0; pid = 0 } ∷ [];
          next = 1;
        }))
    × ((i : ℕ) → ◌≢◌ {A = ℕ} 2 i → get_elem? k'.conts i ≡ get_elem? kernel1.conts i)
    × IsFree k'.kmem (page1 ∷ [])
    × (k'.procs ≡ kernel1.procs)
    × (k'.ctable_lock ≡ false)
container_malloc_lem_example =
    container_malloc_lem 8 2 page2 (page1 ∷ []) kernel1 1 runner 2 (container 2 cwaiting)
      kernel1-InContainer refl (omega arith) kmem0-IsFree refl

abbrev kernel2 : Kernel
kernel2 = record kernel1 { kmem = kmem_empty }

abbrev full_kernel : Container
full_kernel = record (container 2 cwaiting) { next = 2 }

abbrev kernel3 : Kernel
kernel3 = record kernel1 { conts = container 0 cwaiting ∷ container 1 cunused ∷ full_kernel ∷ [] }
