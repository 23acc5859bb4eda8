-- ===== src/Vm/Tests.antt =====
-- The theorems on kernel/vm.c at an empty page table and a free list of two pages.
use operationg_systems.Prelude.{
  ℕ, ◌-◌, ◌≡◌, ◌∙◌, refl, arith, [], ◌∷◌, inl, inr, true, false, Outcome, ok, panic, ◌==◌,
  if◌then◌else◌,
}
use operationg_systems.Kalloc.{Kmem}
use operationg_systems.Kalloc.Chain.{Holds}
use operationg_systems.Vm.Walk.{walkaddr, kalloc_zeroed}
use operationg_systems.Vm.Tables.{Tables}
use operationg_systems.Vm.Map.{map_one, mappages, unmap_one}
use operationg_systems.Vm.Mapped.{mappages-page, walkaddr-mappages}
use operationg_systems.Vm.Copy.{copyin}
use operationg_systems.Vm.Bytewise.{user_bytes, copyin-user_bytes}

abbrev last_page : ℕ
last_page = 0x88000000 - 4096

abbrev second_page : ℕ
second_page = 0x88000000 - 8192

abbrev table : ℕ
table = 0x88000000 - 12288

abbrev kernel_end : ℕ
kernel_end = 0x88000000 - 12288

abbrev memory : Kmem
memory = record { freelist = last_page; word = λ a. if a == last_page then second_page else 0 }

memory-Holds : Holds kernel_end memory (last_page ∷ second_page ∷ [])
memory-Holds = (
  refl,
  omega arith,
  record { aligned = refl; above = omega arith; below = omega arith },
  (omega arith, tt),
  (
    refl,
    omega arith,
    record { aligned = refl; above = omega arith; below = omega arith },
    tt,
    refl,
  ),
)

abbrev result_or {ℓ} : {A : Type ℓ} → Outcome A → A → A
result_or (ok a) b = a
result_or panic b = b

-- The page at 0x80001000, readable by the user, at address 8192.
abbrev mapped : Kmem
mapped = (result_or (map_one table 8192 0x80001000 18 memory) (false, memory)).1

memory_maps : mappages table 8192 4096 0x80001000 18 memory ≡ ok (true, mapped)
unfolding map_one
memory_maps = mappages-page table 8192 0x80001000 18 memory refl (omega arith) ∙ refl

walkaddr-mappages_example : walkaddr table 8192 mapped ≡ 0x80001000
walkaddr-mappages_example =
    walkaddr-mappages kernel_end table 8192 0x80001000 18 memory mapped
      (last_page ∷ second_page ∷ []) refl (omega arith) refl (omega arith) (omega arith) refl
      memory-Holds ((refl, tt, (omega arith, (omega arith, tt))), inl refl) memory_maps

copyin-user_bytes_example : copyin table 8190 5 mapped ≡ user_bytes table mapped 8190 5
copyin-user_bytes_example = copyin-user_bytes table 8190 5 mapped (omega arith)

abbrev unmapped : Kmem
unmapped = result_or (unmap_one kernel_end table 8192 false mapped) memory

mapped-Tables : Tables 2 8192 table mapped.word [] []
unfolding map_one kalloc_zeroed
mapped-Tables = (
  (refl, tt, tt),
  inr ((refl, (omega arith, tt), tt), inr (refl, (omega arith, (omega arith, tt)), tt)),
)
