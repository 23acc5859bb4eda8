-- ===== src/Kalloc/Tests.antt =====
-- The theorems on kernel/kalloc.c at a kernel that ends two pages and a half below PHYSTOP.
use operationg_systems.Prelude.{
  ℕ, ◌-◌, ◌≡◌, ◌↔◌, List, [], ◌∷◌, refl, arith, ok, ◌==◌, if◌then◌else◌,
}
use operationg_systems.Kalloc.{Kmem, kfree, kalloc, kinit}
use operationg_systems.Kalloc.Chain.{IsPage, Holds, Allocates, kfree-Holds, kalloc-Holds}
use operationg_systems.Kalloc.Range.{In, kinit_lem}

abbrev kernel_end : ℕ
kernel_end = 0x88000000 - 10240

abbrev page : ℕ
page = 0x88000000 - 4096

abbrev second_page : ℕ
second_page = 0x88000000 - 8192

abbrev one_page : Kmem
one_page = record { freelist = page; word = λ a. if a == page then 0 else 7 }

one_page-Holds : Holds kernel_end one_page (page ∷ [])
one_page-Holds = (
  refl,
  omega arith,
  record { aligned = refl; above = omega arith; below = omega arith },
  tt,
  refl,
)

kalloc-Holds_example : Allocates kernel_end one_page (page ∷ []) (kalloc one_page)
kalloc-Holds_example = kalloc-Holds kernel_end one_page (page ∷ []) one_page-Holds

kfree-Holds_example :
    (k' : Kmem) × (kfree kernel_end one_page second_page ≡ ok k')
    × Holds kernel_end k' (second_page ∷ page ∷ [])
kfree-Holds_example =
    kfree-Holds kernel_end second_page one_page (page ∷ []) (omega arith)
      (record { aligned = refl; above = omega arith; below = omega arith }) (omega arith, tt)
      one_page-Holds

kinit_lem_example :
    (k' : Kmem) × (pages : List ℕ) × (kinit kernel_end (λ _. 0) ≡ ok k')
    × Holds kernel_end k' pages
    × ((x : ℕ) → In x pages ↔ IsPage kernel_end x)
kinit_lem_example = kinit_lem kernel_end (λ _. 0) (omega arith) (omega arith)
