-- ===== src/Fs/Bitmap.antt =====
-- The blocks of kernel/fs.c: bzero, balloc and bfree, on the bitmap of the disk. The disk is read and written
-- through bread and log_write, as the bytes of its blocks.
use operationg_systems.Prelude.{
  ℕ, zero, suc, ◌+◌, ◌*◌, ◌/◌, ◌%◌, ◌^◌, ◌-◌, ◌&&◌, ◌==◌, ltb, if◌then◌else◌, Option, none, some,
  Outcome, ok, panic,
}

-- The bytes of a block, by its number.
abbrev pub Blocks : Type 0
Blocks = ℕ → ℕ → ℕ

-- What the code reads of struct superblock.
pub record Superblock : Type 0 where
  pub size : ℕ
  pub bmapstart : ℕ

abbrev pub bpb : ℕ
bpb = 8192

-- BBLOCK(b, sb), of a uint b
abbrev pub bblock : ℕ → Superblock → ℕ
bblock b sb = (b / 8192 + sb.bmapstart) % 2 ^ 32

-- BBLOCK(b, sb), of an int b as its 32 bits: the quotient of a negative b is rounded towards 0.
abbrev pub bblock_int : ℕ → Superblock → ℕ
bblock_int b sb =
    if ltb b (2 ^ 31) then bblock b sb else (2 ^ 32 - (2 ^ 32 - b) / 8192 + sb.bmapstart) % 2 ^ 32

-- x & (1 << j), as 0 or 1; x | (1 << j); x & ~(1 << j).
unfoldable pub bit_of : ℕ → ℕ → ℕ
bit_of x zero = x % 2
bit_of x (suc j) = bit_of (x / 2) j

unfoldable pub with_bit : ℕ → ℕ → ℕ
with_bit x zero = x / 2 * 2 + 1
with_bit x (suc j) = with_bit (x / 2) j * 2 + x % 2

unfoldable pub without_bit : ℕ → ℕ → ℕ
without_bit x zero = x / 2 * 2
without_bit x (suc j) = without_bit (x / 2) j * 2 + x % 2

abbrev pub set_data : Blocks → ℕ → ℕ → ℕ → Blocks
set_data d n i v m j = if m == n && j == i then v else d m j

-- Bit bi of bitmap block n, and the disk with that bit set or reset.
unfoldable pub bit_at : Blocks → ℕ → ℕ → ℕ
unfolding bit_of
bit_at d n bi = bit_of (d n (bi / 8)) (bi % 8)

unfoldable pub mark : Blocks → ℕ → ℕ → Blocks
unfolding with_bit
mark d n bi = set_data d n (bi / 8) (with_bit (d n (bi / 8)) (bi % 8))

unfoldable pub unmark : Blocks → ℕ → ℕ → Blocks
unfolding without_bit
unmark d n bi = set_data d n (bi / 8) (without_bit (d n (bi / 8)) (bi % 8))

unfoldable pub bzero : Blocks → ℕ → Blocks
bzero d n m i = if m == n && ltb i 1024 then 0 else d m i

-- The inner loop of balloc from bit bi of the bitmap block of b on, whose fuel is the bits of a block. b and bi
-- are ints, as their 32 bits, and the comparisons with the uint sb.size are of uints.
unfoldable pub scan_bits : ℕ → Superblock → Blocks → ℕ → ℕ → Option (ℕ × ℕ)
unfolding bit_at
scan_bits zero sb d b bi = none
scan_bits (suc fuel) sb d b bi =
    let rest = scan_bits fuel sb d b (bi + 1) in
    if ltb bi bpb && ltb ((b + bi) % 2 ^ 32) sb.size
    then if bit_at d (bblock_int b sb) bi == 0 then some (b, bi) else rest
    else none

abbrev pub or_else : Option (ℕ × ℕ) → Option (ℕ × ℕ) → Option (ℕ × ℕ)
or_else none next = next
or_else (some found) next = some found

-- The outer loop, with at most a round for each block of the disk.
unfoldable pub scan_blocks : ℕ → Superblock → Blocks → ℕ → Option (ℕ × ℕ)
unfolding scan_bits
scan_blocks zero sb d b = none
scan_blocks (suc fuel) sb d b =
    let rest = scan_blocks fuel sb d ((b + bpb) % 2 ^ 32) in
    if ltb b sb.size then or_else (scan_bits bpb sb d b 0) rest else none

-- What balloc does with the free bit, or returns where there is none.
abbrev pub take_block : Superblock → Blocks → Option (ℕ × ℕ) → ℕ × Blocks
take_block sb d none = (0, d)
take_block sb d (some (b, bi)) =
    let n = (b + bi) % 2 ^ 32 in (n, bzero (mark d (bblock_int b sb) bi) n)

unfoldable pub balloc : Superblock → Blocks → ℕ × Blocks
unfolding scan_blocks mark bzero
balloc sb d = take_block sb d (scan_blocks sb.size sb d 0)

unfoldable pub bfree : Superblock → Blocks → ℕ → Outcome Blocks
unfolding bit_at unmark
bfree sb d b =
    let bi = b % bpb in
    if bit_at d (bblock b sb) bi == 0 then panic else ok (unmark d (bblock b sb) bi)
