-- ===== src/Bio.antt =====
-- kernel/bio.c and kernel/sleeplock.c of Assignment1_2. The list behind bcache.head is a list of buffers,
-- most recently used first; `slot` is the place of a buffer in bcache.buf, which a `struct buf *` stands
-- for. The sleep lock that bget ends in and that brelse begins with is looked at apart. NBUF is 30.
pub mod Unique
mod Tests
use operationg_systems.Prelude.{
  ℕ, zero, suc, ◌+◌, ◌-◌, ◌%◌, ◌^◌, List, [], ◌∷◌, Bool, true, false, ◌&&◌, ◌==◌, if◌then◌else◌,
  Option, none, some, Outcome, ok, panic, ◌>>=◌, replicate,
}

-- struct sleeplock
pub record Sleeplock : Type 0 where
  pub locked : Bool
  pub pid : ℕ

unfoldable pub initsleeplock : Sleeplock
initsleeplock = record { locked = false; pid = 0 }

-- One look of acquiresleep: true if process `pid` has the lock, false if it sleeps.
unfoldable pub acquiresleep : ℕ → Sleeplock → Sleeplock × Bool
acquiresleep pid lk = if lk.locked then (lk, false) else (record { locked = true; pid = pid }, true)

unfoldable pub releasesleep : Sleeplock → Sleeplock
releasesleep lk = record { locked = false; pid = 0 }

unfoldable pub holdingsleep : ℕ → Sleeplock → Bool
holdingsleep pid lk = lk.locked && lk.pid == pid

-- struct buf
pub record Buf : Type 0 where
  pub slot : ℕ
  pub valid : Bool
  pub dev : ℕ
  pub blockno : ℕ
  pub lock : Sleeplock
  pub refcnt : ℕ
  pub bytes : List ℕ

-- The loop of binit puts each buffer behind the head.
unfoldable pub binit_from : ℕ → ℕ → List Buf → List Buf
unfolding initsleeplock
binit_from zero i bufs = bufs
binit_from (suc n) i bufs = binit_from n (i + 1) (
    record {
      slot = i;
      valid = false;
      dev = 0;
      blockno = 0;
      lock = initsleeplock;
      refcnt = 0;
      bytes = replicate 1024 0;
    }
    ∷ bufs)

unfoldable pub binit : List Buf
unfolding binit_from
binit = binit_from 30 0 []

abbrev pub caches : ℕ → ℕ → Buf → Bool
caches dev blockno b = b.dev == dev && b.blockno == blockno

-- The first loop of bget; refcnt is an unsigned int.
unfoldable pub take_cached : ℕ → ℕ → List Buf → Option (ℕ × List Buf)
take_cached dev blockno [] = none
take_cached dev blockno (b ∷ bs) =
    let rest : Option (ℕ × List Buf) = elim (take_cached dev blockno bs) [
      | none ↦ none
      | some (slot, cs) ↦ some (slot, b ∷ cs)
    ] in
    if caches dev blockno b
    then some (b.slot, record b { refcnt = (b.refcnt + 1) % 2 ^ 32 } ∷ bs)
    else rest

-- The second loop, from the end of the list.
unfoldable pub recycle : ℕ → ℕ → List Buf → Option (ℕ × List Buf)
recycle dev blockno [] = none
recycle dev blockno (b ∷ bs) = elim (recycle dev blockno bs) [
  | some (slot, cs) ↦ some (slot, b ∷ cs)
  | none ↦
      if b.refcnt == 0
      then some (b.slot, record b { dev = dev; blockno = blockno; valid = false; refcnt = 1 } ∷ bs)
      else none
]

-- bget up to acquiresleep: the buffer, and the list.
unfoldable pub bget : ℕ → ℕ → List Buf → Outcome (ℕ × List Buf)
unfolding take_cached recycle
bget dev blockno bs = elim (take_cached dev blockno bs) [
  | some r ↦ ok r
  | none ↦ elim (recycle dev blockno bs) [ some r ↦ ok r | none ↦ panic ]
]

-- bread behind bget, for the buffer in `slot`; `disk` is what virtio_disk_rw reads.
unfoldable pub fill_valid : (ℕ → ℕ → List ℕ) → ℕ → List Buf → List Buf
fill_valid disk slot [] = []
fill_valid disk slot (b ∷ bs) =
    let rest = fill_valid disk slot bs in
    if b.slot == slot
    then (if b.valid then b else record b { valid = true; bytes = disk b.dev b.blockno }) ∷ bs
    else b ∷ rest

-- brelse behind releasesleep: a buffer without references moves to the front.
unfoldable pub brelse_from : ℕ → List Buf → Option Buf × List Buf
brelse_from slot [] = (none, [])
brelse_from slot (b ∷ bs) =
    let rest = brelse_from slot bs in
    let c = record b { refcnt = (b.refcnt + 2 ^ 32 - 1) % 2 ^ 32 } in
    if b.slot == slot
    then if c.refcnt == 0 then (some c, bs) else (none, c ∷ bs)
    else (rest.0, b ∷ rest.1)

unfoldable pub brelse : ℕ → List Buf → List Buf
unfolding brelse_from
brelse slot bs = let r = brelse_from slot bs in elim r.0 [ none ↦ r.1 | some c ↦ c ∷ r.1 ]
