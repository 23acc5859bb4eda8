-- ===== src/Bio/Tests.antt =====
-- The theorems on kernel/bio.c at a cache of two buffers, of which the older one is free.
use operationg_systems.Prelude.{List, [], ◌∷◌, refl, arith, true, false}
use operationg_systems.Bio.{Buf, bget}
use operationg_systems.Bio.Unique.{IsUnique, bget-IsUnique}

abbrev in_use : Buf
in_use = record {
  slot = 1;
  valid = true;
  dev = 1;
  blockno = 40;
  lock = record { locked = true; pid = 2 };
  refcnt = 1;
  bytes = [];
}

abbrev unused_buf : Buf
unused_buf = record in_use { slot = 0; blockno = 41; refcnt = 0 }

abbrev two_bufs : List Buf
two_bufs = in_use ∷ unused_buf ∷ []

two_bufs-IsUnique : IsUnique two_bufs
two_bufs-IsUnique d n nz = ground arith

bget-IsUnique_example :
    IsUnique (in_use ∷ record unused_buf { blockno = 50; valid = false; refcnt = 1 } ∷ [])
unfolding bget
bget-IsUnique_example =
    bget-IsUnique 1 50 0 two_bufs
      (in_use ∷ record unused_buf { blockno = 50; valid = false; refcnt = 1 } ∷ [])
      two_bufs-IsUnique refl
