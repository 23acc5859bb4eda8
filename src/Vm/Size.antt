-- ===== src/Vm/Size.antt =====
-- uvmalloc, uvmdealloc and uvmcopy of kernel/vm.c, and the sizes that they return.
use operationg_systems.Prelude.{
  ℕ, zero, suc, ◌+◌, ◌-◌, ◌*◌, ◌/◌, Bool, true, false, not, ◌==◌, leb, ltb, if◌then◌else◌, none,
  some, Outcome, ok, panic, ◌>>=◌,
}
use operationg_systems.Kalloc.{Kmem, kalloc, kfree}
use operationg_systems.Vm.Pte.{pte2pa, pte_flags, is_valid, pgroundup, get_bytes, set_bytes}
use operationg_systems.Vm.Walk.{walk, kalloc_zeroed}
use operationg_systems.Vm.Map.{mappages, uvmunmap}

-- The size, and the memory.
unfoldable pub uvmdealloc : ℕ → ℕ → ℕ → ℕ → Kmem → Outcome (ℕ × Kmem)
unfolding uvmunmap
uvmdealloc end pagetable oldsz newsz k =
    if leb oldsz newsz
    then ok (oldsz, k)
    else if ltb (pgroundup newsz) (pgroundup oldsz)
    then (uvmunmap end pagetable (pgroundup newsz) ((pgroundup oldsz - pgroundup newsz) / 4096) true
          k
        >>= λ k1. ok (newsz, k1))
    else ok (newsz, k)

-- The loop of uvmalloc over `left` pages from a on; the Bool tells whether all were mapped. PTE_R|PTE_U
-- is 18; xperm is 0 or has bits 2 and 3.
unfoldable pub grow_from : ℕ → ℕ → ℕ → ℕ → ℕ → ℕ → Kmem → Outcome (Bool × Kmem)
unfolding kalloc_zeroed mappages uvmdealloc
grow_from end pagetable oldsz xperm zero a k = ok (true, k)
grow_from end pagetable oldsz xperm (suc left) a k =
    let r = kalloc_zeroed k in
    let failed =
      λ (k' : Kmem). uvmdealloc end pagetable a oldsz k' >>= λ (_, k''). ok (false, k'') in
    let next = λ (k' : Kmem). grow_from end pagetable oldsz xperm left (a + 4096) k' in
    if r.0 == 0 then failed r.1 else (do
      (mapped, k1) ← mappages pagetable a 4096 r.0 (18 + xperm) r.1
      if mapped then next k1 else (kfree end k1 r.0 >>= failed))

-- The new size, or 0 where memory runs out.
unfoldable pub uvmalloc : ℕ → ℕ → ℕ → ℕ → ℕ → Kmem → Outcome (ℕ × Kmem)
unfolding grow_from
uvmalloc end pagetable oldsz newsz xperm k =
    let start = pgroundup oldsz in
    if ltb newsz oldsz then ok (oldsz, k) else (do
      (grown, k1) ← grow_from end pagetable start xperm ((newsz + 4095 - start) / 4096) start k
      ok (if grown then newsz else 0, k1))

-- The page at i of the parent: a copy of it in the child, or false where memory runs out.
unfoldable pub copy_page : ℕ → ℕ → ℕ → ℕ → Kmem → Outcome (Bool × Kmem)
unfolding walk mappages
copy_page end old new i k = do
  (found, k1) ← walk old i false k
  elim found [
    | none ↦ panic
    | some s ↦
        let r = kalloc k1 in
        let bytes = get_bytes r.1.word (pte2pa (k1.word s)) 4096 in
        if not (is_valid (k1.word s)) then panic else if r.0 == 0 then ok (false, r.1) else (do
          (mapped, k2) ←
              mappages new i 4096 r.0 (pte_flags (k1.word s))
                (record r.1 { word = set_bytes r.1.word r.0 bytes })
          if mapped then ok (true, k2) else (kfree end k2 r.0 >>= λ k3. ok (false, k3)))
  ]

-- The loop of uvmcopy over `left` pages from page `done` on. On failure it unmaps the pages done.
unfoldable pub copy_pages : ℕ → ℕ → ℕ → ℕ → ℕ → Kmem → Outcome (Bool × Kmem)
unfolding copy_page uvmunmap
copy_pages end old new zero done k = ok (true, k)
copy_pages end old new (suc left) done k = do
  (copied, k1) ← copy_page end old new (done * 4096) k
  if copied
      then copy_pages end old new left (done + 1) k1
      else (uvmunmap end new 0 done true k1 >>= λ k2. ok (false, k2))

unfoldable pub uvmcopy : ℕ → ℕ → ℕ → ℕ → Kmem → Outcome (Bool × Kmem)
unfolding copy_pages
uvmcopy end old new sz k = copy_pages end old new ((sz + 4095) / 4096) 0 k
