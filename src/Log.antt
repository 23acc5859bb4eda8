-- ===== src/Log.antt =====
-- kernel/log.c of Assignment1_2, the redo log. A block is its BSIZE/4 = 256 words of 32 bits. The buffer
-- cache is seen as log.c sees it: `view b` is the data that bread(dev, b) returns, which is the cached
-- copy or else the disk's, and `pins b` the references that bpin holds. Each bwrite reaches the disk as
-- one step, and `trace` keeps every disk that there was, newest first: these are what a crash can leave.
-- log.lh is the list of its first n block numbers.
pub mod Disk
pub mod Written
pub mod Crash
pub mod Space
mod Tests
use operationg_systems.Prelude.{
  ℕ, zero, suc, ◌+◌, ◌-◌, ◌*◌, ◌%◌, ◌^◌, List, [], ◌∷◌, ◌++◌, Bool, true, false, ◌==◌, ltb, leb,
  if◌then◌else◌, ◌||◌, Outcome, ok, panic, ◌>>=◌, length, get_or, take, drop,
}

abbrev pub Block : Type 0
Block = List ℕ

abbrev pub Blocks : Type 0
Blocks = ℕ → Block

abbrev pub logsize : ℕ
logsize = 30

abbrev pub maxopblocks : ℕ
maxopblocks = 10

-- struct log, with the buffers and the disk of its device.
pub record Log : Type 0 where
  pub start : ℕ
  pub size : ℕ
  pub outstanding : ℕ
  pub committing : Bool
  pub lh : List ℕ
  pub disk : Blocks
  pub view : Blocks
  pub pins : ℕ → ℕ
  pub trace : List Blocks

abbrev pub update {ℓ} : {A : Type ℓ} → (ℕ → A) → ℕ → A → ℕ → A
update f b v x = if x == b then v else f x

-- memmove into the data of a buffer, and bwrite of it.
unfoldable pub fill_buf : ℕ → Block → Log → Log
fill_buf b v l = record l { view = update l.view b v }

unfoldable pub bwrite : ℕ → Log → Log
bwrite b l = let d = update l.disk b (l.view b) in record l { disk = d; trace = d ∷ l.trace }

unfoldable pub bpin : ℕ → Log → Log
bpin b l = record l { pins = update l.pins b ((l.pins b + 1) % 2 ^ 32) }

unfoldable pub bunpin : ℕ → Log → Log
bunpin b l = record l { pins = update l.pins b ((l.pins b + 2 ^ 32 - 1) % 2 ^ 32) }

-- The header as words: n, and block[0..n).
unfoldable pub put_head : Block → List ℕ → Block
put_head old lh = length lh ∷ (lh ++ drop (suc (length lh)) old)

unfoldable pub get_head : Block → List ℕ
get_head b = take (get_or b 0 0) (drop 1 b)

-- The loop of install_trans from `tail` on, over the rest of log.lh.
unfoldable pub install_from : Bool → ℕ → List ℕ → Log → Log
unfolding fill_buf bwrite bunpin
install_from recovering tail [] l = l
install_from recovering tail (b ∷ bs) l =
    let l1 = bwrite b (fill_buf b (l.view (l.start + tail + 1)) l) in
    install_from recovering (tail + 1) bs (if recovering then l1 else bunpin b l1)

unfoldable pub install_trans : Bool → Log → Log
unfolding install_from
install_trans recovering l = install_from recovering 0 l.lh l

unfoldable pub read_head : Log → Log
unfolding get_head
read_head l = record l { lh = get_head (l.view l.start) }

unfoldable pub write_head : Log → Log
unfolding put_head fill_buf bwrite
write_head l = bwrite l.start (fill_buf l.start (put_head (l.view l.start) l.lh) l)

unfoldable pub recover_from_log : Log → Log
unfolding read_head install_trans write_head
recover_from_log l = write_head (record (install_trans true (read_head l)) { lh = [] })

-- initlog, with sb->logstart and sb->nlog.
unfoldable pub initlog : ℕ → ℕ → Log → Log
unfolding recover_from_log
initlog logstart nlog l = recover_from_log (record l { start = logstart; size = nlog })

-- The loop of write_log.
unfoldable pub write_log_from : ℕ → List ℕ → Log → Log
unfolding fill_buf bwrite
write_log_from tail [] l = l
write_log_from tail (b ∷ bs) l =
    write_log_from (tail + 1) bs
      (bwrite (l.start + tail + 1) (fill_buf (l.start + tail + 1) (l.view b) l))

unfoldable pub write_log : Log → Log
unfolding write_log_from
write_log l = write_log_from 0 l.lh l

unfoldable pub commit : Log → Log
unfolding write_log write_head install_trans
commit l =
    if ltb 0 (length l.lh)
    then write_head (record (install_trans false (write_head (write_log l))) { lh = [] })
    else l

-- whether log_write finds the block in the header
unfoldable pub absorbed : ℕ → List ℕ → Bool
absorbed b [] = false
absorbed b (x ∷ xs) = x == b || absorbed b xs

unfoldable pub log_write : ℕ → Log → Outcome Log
unfolding absorbed bpin
log_write b l =
    if leb logsize (length l.lh) || leb (l.size - 1) (length l.lh)
    then panic
    else if ltb l.outstanding 1
    then panic
    else if absorbed b l.lh
    then ok l
    else ok (record (bpin b l) { lh = l.lh ++ b ∷ [] })

-- One look of begin_op at the log: true if the operation may go on, false if it sleeps on the log.
unfoldable pub begin_op : Log → Log × Bool
begin_op l =
    if l.committing
    then (l, false)
    else if ltb logsize (length l.lh + (l.outstanding + 1) * maxopblocks)
    then (l, false)
    else (record l { outstanding = l.outstanding + 1 }, true)

-- log.outstanding is an int, in 32 bits.
-- end_op up to the release of log.lock, with do_commit; and what follows if do_commit is 1.
unfoldable pub end_op : Log → Outcome (Log × Bool)
end_op l =
    let l1 = record l { outstanding = (l.outstanding + 2 ^ 32 - 1) % 2 ^ 32 } in
    if l.committing
    then panic
    else if l1.outstanding == 0
    then ok (record l1 { committing = true }, true)
    else ok (l1, false)

unfoldable pub end_commit : Log → Log
unfolding commit
end_commit l = record (commit l) { committing = false }
