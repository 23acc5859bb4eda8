-- ===== src/Fs/Balloc/Tests.antt =====
-- A disk of 12 blocks, of which 5, 6, 10 and 11 are free; block 3 is the bitmap.
use operationg_systems.Prelude.{◌≡◌, ◌≢◌, refl, arith, subst, ◌==◌, if◌then◌else◌}
use operationg_systems.Fs.Bitmap.{Blocks, Superblock, bblock, bit_at, balloc}
use operationg_systems.Fs.Blocks.{used}
use operationg_systems.Fs.Balloc.{BitmapInUse, Allocates, balloc_lem}

abbrev small : Superblock
small = record { size = 12; bmapstart = 3 }

-- 0b10011111 and 0b00000011
abbrev image : Blocks
image n i = if n == 3 then if i == 0 then 0x9f else if i == 1 then 3 else 0 else 7

third : used small image 3 ≢ 0
unfolding bit_at
third e = absurd (omega (arith, e))

image-BitmapInUse : BitmapInUse small image
image-BitmapInUse y inside =
    let here : 3 ≡ bblock y small = omega (arith, inside) in
    subst (λ n. used small image n ≢ 0) here third

balloc_lem_example : Allocates small image (balloc small image)
balloc_lem_example = balloc_lem small image (omega arith) image-BitmapInUse

taken : (balloc small image).0 ≡ 5
unfolding balloc
taken = refl
