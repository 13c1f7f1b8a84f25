-- ===== src/Tests/Pages.antt =====
-- kalloc.c at fixed inputs.
use a.Base.{ℕ, ◌+◌, ◌≡◌, refl, [], ◌∷◌, arith, ok, panic}
use a.Kalloc.{Kmem, kfree, freerange}
use a.Kalloc.FreeList.{IsFree}
use a.Kalloc.Range.{freerange-IsFree}
use a.Tests.Data.{kmem0, kmem_empty, kmem_empty-IsFree, page2}

abbrev page3 : ℕ
page3 = 0x80402000

kfree_bad : kfree (page3 + 4) kmem0 ≡ panic
unfolding kfree
kfree_bad = refl

freerange-IsFree_example :
    (m' : Kmem) × (freerange 0x80400001 0x80403800 kmem_empty ≡ ok m')
    × IsFree m' (page3 ∷ page2 ∷ [])
freerange-IsFree_example =
    freerange-IsFree 0x80400001 0x80403800 kmem_empty [] (omega arith)
      (record {
        aligned = omega arith;
        after_kernel = omega arith;
        mapped = omega arith;
        within = omega arith;
      })
      tt kmem_empty-IsFree
