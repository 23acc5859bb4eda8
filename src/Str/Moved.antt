-- ===== src/Str/Moved.antt =====
-- What memmove, memset and memcmp of kernel/string.c do to memory.
use operationg_systems.Prelude.{
  ℕ, zero, suc, ◌+◌, ◌-◌, ◌≡◌, ◌≤◌, arith, ltb, leb, if◌then◌else◌, ◌&&◌, ◌⊎◌,
}
use operationg_systems.Str.Memory.{Memory, store, copy_up, copy_down, memmove}

-- byte `a` of memory once the `n` bytes at `s` have been copied to `d`, all at once
abbrev pub moved : Memory → ℕ → ℕ → ℕ → ℕ → ℕ
moved m d s n a = if leb d a && ltb a (d + n) then m (s + (a - d)) else m a

pub copy_up-moved :
    (n : ℕ) (m : Memory) (d s a : ℕ) → (d ≤ s) ⊎ (s + n ≤ d) → copy_up m d s n a ≡ moved m d s n a
unfolding copy_up
copy_up-moved zero m d s a h = ground arith
copy_up-moved (suc n) m d s a h =
    ground (arith, copy_up-moved n (store m d (m s)) (d + 1) (s + 1) a)

pub copy_down-moved :
    (n : ℕ) (m : Memory) (d s a : ℕ) → s ≤ d → copy_down m d s n a ≡ moved m d s n a
unfolding copy_down
copy_down-moved zero m d s a h = ground arith
copy_down-moved (suc n) m d s a h =
    ground (arith, copy_down-moved n (store m (d + n) (m (s + n))) d s a)

-- memmove(dst, src, n) copies as if through a third buffer, however the two ranges overlap: byte `a` is
-- then the old byte of the source at its place if `a` lies in the destination, else its own old one.
pub memmove-moved : (m : Memory) (dst src n a : ℕ) → memmove m dst src n a ≡ moved m dst src n a
unfolding memmove
memmove-moved m dst src n a =
    ground (arith, copy_up-moved n m dst src a, copy_down-moved n m dst src a)
