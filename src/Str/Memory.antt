-- ===== src/Str/Memory.antt =====
-- kernel/string.c, the functions on memory: memset, memcmp, memmove. Memory is a function from
-- addresses to bytes; the ranges lie inside the address space, so no pointer wraps.
use operationg_systems.Prelude.{ℕ, zero, suc, ◌+◌, ◌-◌, ◌%◌, ◌^◌, ◌==◌, ltb, if◌then◌else◌, ◌&&◌}

abbrev pub Memory : Type 0
Memory = ℕ → ℕ

abbrev pub store : Memory → ℕ → ℕ → Memory
store m p v q = if q == p then v else m q

-- cdst[i] = c for i from `i` on, `n` bytes left
unfoldable pub memset : Memory → ℕ → ℕ → ℕ → Memory
memset m dst c zero = m
memset m dst c (suc n) = memset (store m dst (c % 256)) (dst + 1) c n

-- the difference of the first bytes that differ, as a 32-bit int
unfoldable pub memcmp : Memory → ℕ → ℕ → ℕ → ℕ
memcmp m s1 s2 zero = 0
memcmp m s1 s2 (suc n) =
    let rest = memcmp m (s1 + 1) (s2 + 1) n in
    if m s1 == m s2 then rest else (m s1 + 2 ^ 32 - m s2) % 2 ^ 32

-- while(n-- > 0) *d++ = *s++;
unfoldable pub copy_up : Memory → ℕ → ℕ → ℕ → Memory
copy_up m d s zero = m
copy_up m d s (suc n) = copy_up (store m d (m s)) (d + 1) (s + 1) n

-- while(n-- > 0) *--d = *--s; with d and s already moved behind the ranges, which begin at d0 and s0
unfoldable pub copy_down : Memory → ℕ → ℕ → ℕ → Memory
copy_down m d0 s0 zero = m
copy_down m d0 s0 (suc n) = copy_down (store m (d0 + n) (m (s0 + n))) d0 s0 n

unfoldable pub memmove : Memory → ℕ → ℕ → ℕ → Memory
unfolding copy_up copy_down
memmove m dst src n =
    if n == 0
    then m
    else if ltb src dst && ltb dst (src + n)
    then copy_down m dst src n
    else copy_up m dst src n

unfoldable pub memcpy : Memory → ℕ → ℕ → ℕ → Memory
memcpy m dst src n = memmove m dst src n
