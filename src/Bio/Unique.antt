-- ===== src/Bio/Unique.antt =====
-- Each block is in one buffer of kernel/bio.c at most.
use operationg_systems.Prelude.{
  ℕ, ◌+◌, ◌≡◌, ◌≢◌, ◌≤◌, refl, List, [], ◌∷◌, ◌&&◌, ◌==◌, if◌then◌else◌, arith, Option, none, some,
  ok, Option-cases, inl, inr,
}
use operationg_systems.Bio.{Buf, caches, take_cached, recycle, bget, brelse_from, brelse}

-- the number of buffers that hold a block
abbrev pub copies : ℕ → ℕ → List Buf → ℕ
copies dev blockno [] = 0
copies dev blockno (b ∷ bs) = (if caches dev blockno b then 1 else 0) + copies dev blockno bs

-- Device 0 is what a buffer that was never used stands for.
abbrev pub IsUnique : List Buf → Type 0
IsUnique bs = (dev blockno : ℕ) → dev ≢ 0 → copies dev blockno bs ≤ 1

take_cached-none :
    (dev blockno : ℕ) (bs : List Buf)
    → take_cached dev blockno bs ≡ none
    → copies dev blockno bs ≡ 0
unfolding take_cached
take_cached-none dev blockno [] e = refl
take_cached-none dev blockno (b ∷ bs) e = ground (arith, take_cached-none dev blockno bs)

take_cached-copies :
    (dev blockno d n : ℕ) (bs : List Buf) (r : ℕ × List Buf)
    → take_cached dev blockno bs ≡ some r
    → copies d n r.1 ≡ copies d n bs
unfolding take_cached
take_cached-copies dev blockno d n [] r e = cc
take_cached-copies dev blockno d n (b ∷ bs) r e = elim (Option-cases (take_cached dev blockno bs)) [
  | inl absent ↦ ground (arith, absent)
  | inr (q, found) ↦ ground (arith, found, take_cached-copies dev blockno d n bs q found)
]

recycle-copies :
    (dev blockno d n : ℕ) (bs : List Buf) (r : ℕ × List Buf)
    → recycle dev blockno bs ≡ some r
    → copies d n r.1 ≤ copies d n bs + (if dev == d && blockno == n then 1 else 0)
unfolding recycle
recycle-copies dev blockno d n [] r e = cc
recycle-copies dev blockno d n (b ∷ bs) r e = elim (Option-cases (recycle dev blockno bs)) [
  | inl absent ↦ ground (arith, absent)
  | inr (q, found) ↦ ground (arith, found, recycle-copies dev blockno d n bs q found)
]

-- bget keeps every block in one buffer at most, whether it finds the block or takes a buffer for it.
pub bget-IsUnique :
    (dev blockno slot : ℕ) (bs cs : List Buf)
    → IsUnique bs
    → bget dev blockno bs ≡ ok (slot, cs)
    → IsUnique cs
unfolding bget
bget-IsUnique dev blockno slot bs cs v e d n nz = elim (Option-cases (take_cached dev blockno bs)) [
  | inr (q, found) ↦ ground (arith, found, take_cached-copies dev blockno d n bs q found, v d n nz)
  | inl absent ↦ elim (Option-cases (recycle dev blockno bs)) [
    | inl full ↦ ground (arith, absent, full)
    | inr (q, taken) ↦ ground (
      arith,
      absent,
      taken,
      take_cached-none dev blockno bs absent,
      recycle-copies dev blockno d n bs q taken,
      v d n nz,
    )
  ]
]

abbrev copies_of : ℕ → ℕ → Option Buf → ℕ
copies_of d n none = 0
copies_of d n (some b) = if caches d n b then 1 else 0

brelse_from-copies :
    (slot d n : ℕ) (bs : List Buf)
    → copies_of d n (brelse_from slot bs).0 + copies d n (brelse_from slot bs).1 ≡ copies d n bs
unfolding brelse_from
brelse_from-copies slot d n [] = refl
brelse_from-copies slot d n (b ∷ bs) = ground (arith, brelse_from-copies slot d n bs)

-- brelse moves a buffer at most: every block is in as many buffers as before.
pub copies-brelse : (slot d n : ℕ) (bs : List Buf) → copies d n (brelse slot bs) ≡ copies d n bs
unfolding brelse
copies-brelse slot d n bs = elim (Option-cases (brelse_from slot bs).0) [
  | inl kept ↦ ground (arith, kept, brelse_from-copies slot d n bs)
  | inr (c, moved) ↦ ground (arith, moved, brelse_from-copies slot d n bs)
]
