-- ===== src/Fs/Bmap/Tests.antt =====
-- The ninth block behind the direct ones of an empty file, on a disk of 12 blocks; block 3 is the bitmap, in
-- which 5 and 6 are free.
use operationg_systems.Prelude.{ℕ, ◌≡◌, refl, arith, List, ◌==◌, if◌then◌else◌, set, replicate, ok}
use operationg_systems.Fs.Bitmap.{Blocks, Superblock, balloc}
use operationg_systems.Fs.Bmap.{set_word, bmap}
use operationg_systems.Fs.Bmap.Laws.{bmap_again}

abbrev disk_size : Superblock
disk_size = record { size = 12; bmapstart = 3 }

abbrev full_but_two : Blocks
full_but_two n i = if n == 3 then if i == 0 then 0x9f else 255 else 7

abbrev no_addrs : List ℕ
no_addrs = replicate 13 0

abbrev one_block : List ℕ
one_block = set no_addrs 12 5

abbrev written : Blocks
written = set_word (balloc disk_size (balloc disk_size full_but_two).1).1 5 8 6

first : bmap disk_size no_addrs 20 full_but_two ≡ ok (6, one_block, written)
unfolding bmap balloc
first = refl

bmap_again_example : bmap disk_size one_block 20 written ≡ ok (6, one_block, written)
bmap_again_example =
    bmap_again disk_size no_addrs one_block 20 6 full_but_two written (omega arith) refl first
      (omega arith)
