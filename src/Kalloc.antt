-- ===== src/Kalloc.antt =====
-- kernel/kalloc.c of Assignment1_2: the allocator of physical pages. Memory is a function from the
-- address of a 64-bit word to the word; a free page holds the pointer to the next one in its first word.
-- `end` is the first address behind the kernel, which the linker defines. The lock of kmem is left out:
-- each function is one critical section.
pub mod Chain
pub mod Range
mod Tests
use operationg_systems.Prelude.{
  ℕ, zero, suc, ◌+◌, ◌-◌, ◌*◌, ◌/◌, ◌%◌, ◌^◌, Bool, true, false, not, ◌&&◌, ◌||◌, ◌==◌, ltb, leb,
  if◌then◌else◌, Outcome, ok, panic, ◌>>=◌,
}

abbrev pub pgsize : ℕ
pgsize = 4096

-- PHYSTOP of memlayout.h: KERNBASE + 128*1024*1024
abbrev pub phystop : ℕ
phystop = 0x88000000

-- PGROUNDUP of riscv.h
abbrev pub pgroundup : ℕ → ℕ
pgroundup sz = (sz + 4095) % 2 ^ 64 / 4096 * 4096

-- kmem, and the memory that its list runs through.
pub record Kmem : Type 0 where
  pub freelist : ℕ
  pub word : ℕ → ℕ

-- r->next = v
abbrev pub store : (ℕ → ℕ) → ℕ → ℕ → ℕ → ℕ
store w p v a = if a == p then v else w a

-- memset(pa, c, PGSIZE), v being the word of eight bytes c
abbrev pub fill : (ℕ → ℕ) → ℕ → ℕ → ℕ → ℕ
fill w pa v a = if leb pa a && ltb a (pa + pgsize) then v else w a

-- the guard of kfree
unfoldable pub bad_page : ℕ → ℕ → Bool
bad_page end pa = not (pa % pgsize == 0) || ltb pa end || leb phystop pa

unfoldable pub kfree : ℕ → Kmem → ℕ → Outcome Kmem
unfolding bad_page
kfree end k pa =
    if bad_page end pa
    then panic
    else ok
        (record { freelist = pa; word = store (fill k.word pa 0x0101010101010101) pa k.freelist })

-- The pointer, 0 if there is no page, and the allocator.
unfoldable pub kalloc : Kmem → ℕ × Kmem
kalloc k = if k.freelist == 0 then (0, k) else (
  k.freelist,
  record { freelist = k.word k.freelist; word = fill k.word k.freelist 0x0505050505050505 },
)

-- The loop of freerange from p on, `n` bounding its rounds.
unfoldable pub free_from : ℕ → ℕ → ℕ → ℕ → Kmem → Outcome Kmem
free_from end pa_end zero p k = ok k
free_from end pa_end (suc n) p k =
    let rest = kfree end k p >>= free_from end pa_end n (p + pgsize) in
    if leb (p + pgsize) pa_end then rest else ok k

-- freerange: the pages between the two addresses are at most pa_end / PGSIZE.
unfoldable pub freerange : ℕ → ℕ → ℕ → Kmem → Outcome Kmem
unfolding free_from
freerange end pa_start pa_end k = free_from end pa_end (pa_end / pgsize + 1) (pgroundup pa_start) k

-- kinit, on a list that is empty, as the loader leaves it.
unfoldable pub kinit : ℕ → (ℕ → ℕ) → Outcome Kmem
unfolding freerange
kinit end w = freerange end end phystop (record { freelist = 0; word = w })
