-- ===== src/Vm/Walk.antt =====
-- walk and walkaddr of kernel/vm.c, and what reads or clears one entry.
use operationg_systems.Prelude.{
  ℕ, zero, suc, ◌+◌, ◌-◌, ◌*◌, Bool, false, not, ◌&&◌, ◌==◌, leb, if◌then◌else◌, Option, none, some,
  Outcome, ok, panic, ◌>>=◌,
}
use operationg_systems.Kalloc.{Kmem, store, fill, kalloc}
use operationg_systems.Vm.Pte.{maxva, px, pte2pa, pa2pte, is_valid, is_user}

-- &pagetable[PX(level, va)]
abbrev pub slot : ℕ → ℕ → ℕ → ℕ
slot level pagetable va = pagetable + 8 * px level va

-- kalloc and memset(pa, 0, PGSIZE); 0 if there is no page.
unfoldable pub kalloc_zeroed : Kmem → ℕ × Kmem
unfolding kalloc
kalloc_zeroed k =
    let r = kalloc k in if r.0 == 0 then r else (r.0, record r.1 { word = fill r.1.word r.0 0 })

-- The loop of walk from `level` down: the address of the entry, or none.
unfoldable pub walk_down : ℕ → Bool → ℕ → ℕ → Kmem → Option ℕ × Kmem
unfolding kalloc_zeroed
walk_down zero alloc va pagetable k = (some (slot 0 pagetable va), k)
walk_down (suc level) alloc va pagetable k =
    let s = slot (suc level) pagetable va in
    let r = kalloc_zeroed k in
    let down = walk_down level alloc va (pte2pa (k.word s)) k in
    let grown =
      walk_down level alloc va r.0 (record r.1 { word = store r.1.word s (pa2pte r.0 + 1) }) in
    if is_valid (k.word s)
    then down
    else if not alloc
    then (none, k)
    else if r.0 == 0
    then (none, r.1)
    else grown

unfoldable pub walk : ℕ → ℕ → Bool → Kmem → Outcome (Option ℕ × Kmem)
unfolding walk_down
walk pagetable va alloc k = if leb maxva va then panic else ok (walk_down 2 alloc va pagetable k)

-- walkaddr behind walk: the page of an entry that is there, valid, and for the user, or else 0.
unfoldable pub entry_page : Option ℕ → Kmem → ℕ
entry_page none k = 0
entry_page (some s) k = if is_valid (k.word s) && is_user (k.word s) then pte2pa (k.word s) else 0

-- The physical page, or 0.
unfoldable pub walkaddr : ℕ → ℕ → Kmem → ℕ
unfolding walk_down entry_page
walkaddr pagetable va k =
    if leb maxva va then 0 else entry_page (walk_down 2 false va pagetable k).0 k

-- *pte &= ~PTE_U
unfoldable pub uvmclear : ℕ → ℕ → Kmem → Outcome Kmem
unfolding walk
uvmclear pagetable va k = do
  (found, k1) ← walk pagetable va false k
  elim found [
    | none ↦ panic
    | some s ↦ ok (record k1 {
      word = store k1.word s (if is_user (k1.word s) then k1.word s - 16 else k1.word s);
    })
  ]
