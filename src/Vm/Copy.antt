-- ===== src/Vm/Copy.antt =====
-- copyout, copyin and copyinstr of kernel/vm.c.
use operationg_systems.Prelude.{
  ℕ, zero, suc, ◌+◌, ◌-◌, ◌%◌, ◌^◌, List, [], ◌∷◌, ◌++◌, Bool, true, false, ◌==◌, if◌then◌else◌,
  Option, none, some, min, length, take, drop,
}
use operationg_systems.Kalloc.{Kmem}
use operationg_systems.Vm.Pte.{pgrounddown, get_byte, get_bytes, set_bytes}
use operationg_systems.Vm.Walk.{walkaddr}

-- The bytes of a page that a round of the loops takes, of the len that are left.
abbrev pub chunk : ℕ → ℕ → ℕ
chunk va len = min (4096 - (va - pgrounddown va)) len

-- Each round moves a byte at least, which bounds the rounds by len. The bytes, or none for -1.
unfoldable pub copyin_from : ℕ → ℕ → ℕ → ℕ → Kmem → Option (List ℕ)
copyin_from fuel pagetable srcva zero k = some []
copyin_from zero pagetable srcva (suc len) k = none
copyin_from (suc fuel) pagetable srcva (suc len) k =
    let va0 = pgrounddown srcva in
    let pa0 = walkaddr pagetable va0 k in
    let n = chunk srcva (suc len) in
    let rest : Option (List ℕ) =
      elim (copyin_from fuel pagetable ((va0 + 4096) % 2 ^ 64) (suc len - n) k) [
        | none ↦ none
        | some bytes ↦ some (get_bytes k.word (pa0 + (srcva - va0)) n ++ bytes)
      ] in
    if pa0 == 0 then none else rest

unfoldable pub copyin : ℕ → ℕ → ℕ → Kmem → Option (List ℕ)
unfolding copyin_from
copyin pagetable srcva len k = copyin_from len pagetable srcva len k

-- Whether it succeeds, and the memory, in which a copy that fails may have written.
unfoldable pub copyout_from : ℕ → ℕ → ℕ → List ℕ → Kmem → Bool × Kmem
copyout_from fuel pagetable dstva [] k = (true, k)
copyout_from zero pagetable dstva (v ∷ src) k = (false, k)
copyout_from (suc fuel) pagetable dstva (v ∷ src) k =
    let va0 = pgrounddown dstva in
    let pa0 = walkaddr pagetable va0 k in
    let n = chunk dstva (length (v ∷ src)) in
    let rest =
      copyout_from fuel pagetable ((va0 + 4096) % 2 ^ 64) (drop n (v ∷ src))
        (record k { word = set_bytes k.word (pa0 + (dstva - va0)) (take n (v ∷ src)) }) in
    if pa0 == 0 then (false, k) else rest

unfoldable pub copyout : ℕ → ℕ → List ℕ → Kmem → Bool × Kmem
unfolding copyout_from
copyout pagetable dstva src k = copyout_from (length src) pagetable dstva src k

-- The inner loop of copyinstr: the bytes before a 0 or before n runs out, and whether there was a 0.
unfoldable pub string_bytes : (ℕ → ℕ) → ℕ → ℕ → List ℕ × Bool
string_bytes w p zero = ([], false)
string_bytes w p (suc n) =
    let rest = string_bytes w (p + 1) n in
    if get_byte w p == 0 then ([], true) else (get_byte w p ∷ rest.0, rest.1)

-- The string, or none for -1.
unfoldable pub copyinstr_from : ℕ → ℕ → ℕ → ℕ → Kmem → Option (List ℕ)
unfolding string_bytes
copyinstr_from fuel pagetable srcva zero k = none
copyinstr_from zero pagetable srcva (suc max) k = none
copyinstr_from (suc fuel) pagetable srcva (suc max) k =
    let va0 = pgrounddown srcva in
    let pa0 = walkaddr pagetable va0 k in
    let n = chunk srcva (suc max) in
    let r = string_bytes k.word (pa0 + (srcva - va0)) n in
    let rest : Option (List ℕ) =
      elim (copyinstr_from fuel pagetable ((va0 + 4096) % 2 ^ 64) (suc max - n) k) [
        | none ↦ none
        | some bytes ↦ some (r.0 ++ bytes)
      ] in
    if pa0 == 0 then none else if r.1 then some r.0 else rest

unfoldable pub copyinstr : ℕ → ℕ → ℕ → Kmem → Option (List ℕ)
unfolding copyinstr_from
copyinstr pagetable srcva max k = copyinstr_from max pagetable srcva max k
