-- ===== src/Vm/Map.antt =====
-- kernel/vm.c: mappages, uvmunmap, uvmcreate, uvmfirst, freewalk, uvmfree and uvmcopy.
use operationg_systems.Prelude.{
  ℕ, zero, suc, ◌+◌, ◌-◌, ◌*◌, ◌/◌, ◌%◌, ◌^◌, List, Bool, true, false, not, ◌||◌, ◌==◌, leb, ltb,
  if◌then◌else◌, Option, none, some, Outcome, ok, panic, ◌>>=◌, length,
}
use operationg_systems.Kalloc.{Kmem, store, fill, kalloc, kfree}
use operationg_systems.Vm.Pte.{
  maxva, pte2pa, pte_flags, is_valid, is_leaf, make_pte, pgrounddown, pgroundup, set_bytes,
}
use operationg_systems.Vm.Walk.{kalloc_zeroed, walk}

-- One round of mappages behind walk: the entry of the page is written, or there was no memory.
unfoldable pub map_at : ℕ → ℕ → Option ℕ × Kmem → Outcome (Bool × Kmem)
map_at pa perm (none, k) = ok (false, k)
map_at pa perm (some s, k) =
    if is_valid (k.word s)
    then panic
    else ok (true, record k { word = store k.word s (make_pte pa perm) })

unfoldable pub map_one : ℕ → ℕ → ℕ → ℕ → Kmem → Outcome (Bool × Kmem)
unfolding walk map_at
map_one pagetable a pa perm k = walk pagetable a true k >>= map_at pa perm

-- The loop of mappages; walk stops the kernel once a is MAXVA, which bounds its rounds.
unfoldable pub map_from : ℕ → ℕ → ℕ → ℕ → ℕ → ℕ → Kmem → Outcome (Bool × Kmem)
unfolding map_one
map_from zero pagetable a last pa perm k = panic
map_from (suc fuel) pagetable a last pa perm k = do
  (mapped, k1) ← map_one pagetable a pa perm k
  if not mapped || a == last
      then ok (mapped, k1)
      else map_from fuel pagetable (a + 4096) last (pa + 4096) perm k1

unfoldable pub mappages : ℕ → ℕ → ℕ → ℕ → ℕ → Kmem → Outcome (Bool × Kmem)
unfolding map_from
mappages pagetable va size pa perm k =
    if size == 0
    then panic
    else map_from (maxva / 4096 + 1) pagetable (pgrounddown va)
        (pgrounddown ((va + size + 2 ^ 64 - 1) % 2 ^ 64)) pa perm k

-- One round of uvmunmap behind walk; `end` is the first address behind the kernel, which kfree compares
-- with.
unfoldable pub unmap_at : ℕ → Bool → Option ℕ × Kmem → Outcome Kmem
unmap_at end do_free (none, k) = panic
unmap_at end do_free (some s, k) =
    if not (is_valid (k.word s))
    then panic
    else if pte_flags (k.word s) == 1
    then panic
    else (if do_free then kfree end k (pte2pa (k.word s)) else ok k) >>= λ k1.
        ok (record k1 { word = store k1.word s 0 })

unfoldable pub unmap_one : ℕ → ℕ → ℕ → Bool → Kmem → Outcome Kmem
unfolding walk unmap_at
unmap_one end pagetable a do_free k = walk pagetable a false k >>= unmap_at end do_free

unfoldable pub unmap_from : ℕ → ℕ → ℕ → ℕ → Bool → Kmem → Outcome Kmem
unfolding unmap_one
unmap_from end pagetable zero a do_free k = ok k
unmap_from end pagetable (suc npages) a do_free k =
    unmap_one end pagetable a do_free k >>= unmap_from end pagetable npages (a + 4096) do_free

unfoldable pub uvmunmap : ℕ → ℕ → ℕ → ℕ → Bool → Kmem → Outcome Kmem
unfolding unmap_from
uvmunmap end pagetable va npages do_free k =
    if not (va % 4096 == 0) then panic else unmap_from end pagetable npages va do_free k

-- The page table, or 0.
unfoldable pub uvmcreate : Kmem → ℕ × Kmem
unfolding kalloc_zeroed
uvmcreate k = kalloc_zeroed k

-- PTE_W|PTE_R|PTE_X|PTE_U is 30. The page that kalloc returns is used unseen.
unfoldable pub uvmfirst : ℕ → List ℕ → Kmem → Outcome Kmem
unfolding kalloc_zeroed mappages set_bytes
uvmfirst pagetable src k =
    if leb 4096 (length src)
    then panic
    else let r = kalloc k in
      let k1 = record r.1 { word = fill r.1.word r.0 0 } in
      mappages pagetable 0 4096 r.0 30 k1 >>= λ (mapped, k2).
      ok (record k2 { word = set_bytes k2.word r.0 src })

-- The loop of freewalk over the entries from i on, with `below` for a table one level down.
unfoldable pub free_entries : (ℕ → Kmem → Outcome Kmem) → ℕ → ℕ → ℕ → Kmem → Outcome Kmem
free_entries below pagetable zero i k = ok k
free_entries below pagetable (suc left) i k =
    let pte = k.word (pagetable + 8 * i) in
    let next = free_entries below pagetable left (i + 1) in
    let descend = below (pte2pa pte) k >>= λ k1.
    next (record k1 { word = store k1.word (pagetable + 8 * i) 0 }) in
    let skip = next k in if is_valid pte then if is_leaf pte then panic else descend else skip

-- freewalk of a table of at most `depth` levels.
unfoldable pub freewalk : ℕ → ℕ → ℕ → Kmem → Outcome Kmem
unfolding free_entries
freewalk end zero pagetable k = panic
freewalk end (suc depth) pagetable k =
    free_entries (freewalk end depth) pagetable 512 0 k >>= λ k1. kfree end k1 pagetable

unfoldable pub uvmfree : ℕ → ℕ → ℕ → Kmem → Outcome Kmem
unfolding uvmunmap freewalk
uvmfree end pagetable sz k =
    (if ltb 0 sz then uvmunmap end pagetable 0 (pgroundup sz / 4096) true k else ok k)
    >>= freewalk end 3 pagetable
