-- ===== src/Pipe.antt =====
-- kernel/pipe.c of Assignment1_2: pipewrite, piperead and pipeclose. A call holds pi->lock but for the
-- time that it sleeps, so its run from one sleep to the next is one step: it returns, or it goes to
-- sleep with what it has to remember. User memory and p->killed are seen as the call sees them, byte by
-- byte. The channels that a step wakes are part of its result.
pub mod Queue
pub mod Write
pub mod Read
mod Tests
use operationg_systems.Prelude.{
  ℕ, zero, suc, ◌+◌, ◌%◌, ◌^◌, List, [], ◌∷◌, ◌++◌, Bool, true, false, not, ◌&&◌, ◌||◌, ◌==◌,
  if◌then◌else◌, Option, none, some, get_or, set, replicate,
}

abbrev pub pipesize : ℕ
pipesize = 512

-- struct pipe; nread and nwrite are uint counters that wrap.
pub record Pipe : Type 0 where
  pub bytes : List ℕ
  pub nread : ℕ
  pub nwrite : ℕ
  pub readopen : Bool
  pub writeopen : Bool

-- The channels &pi->nread and &pi->nwrite.
pub data PipeChan : Type 0 where
  nread_chan nwrite_chan : PipeChan

-- The pipe that pipealloc makes, in a page that kalloc has filled with 5.
unfoldable pub new_pipe : Pipe
new_pipe = record {
  bytes = replicate 512 5;
  nread = 0;
  nwrite = 0;
  readopen = true;
  writeopen = true;
}

-- pi->nwrite == pi->nread + PIPESIZE, in 32 bits
unfoldable pub is_full : Pipe → Bool
is_full p = p.nwrite == (p.nread + pipesize) % 2 ^ 32

unfoldable pub is_empty : Pipe → Bool
is_empty p = p.nread == p.nwrite

-- pi->data[pi->nwrite++ % PIPESIZE] = ch
unfoldable pub put_byte : Pipe → ℕ → Pipe
put_byte p ch = record p {
  bytes = set p.bytes (p.nwrite % pipesize) ch;
  nwrite = (p.nwrite + 1) % 2 ^ 32;
}

-- ch = pi->data[pi->nread++ % PIPESIZE]
unfoldable pub first_byte : Pipe → ℕ
first_byte p = get_or p.bytes (p.nread % pipesize) 0

unfoldable pub drop_byte : Pipe → Pipe
drop_byte p = record p { nread = (p.nread + 1) % 2 ^ 32 }

-- How a step of pipewrite ends: it returns i, it returns -1, or it sleeps on nwrite with i.
pub data WriteStep : Type 0 where
  written : Pipe → ℕ → List PipeChan → WriteStep
  refused : Pipe → WriteStep
  asleep : Pipe → ℕ → List PipeChan → WriteStep

-- The loop of pipewrite from i on, with n - i = left; `src i` is what copyin finds at addr + i, and
-- `killed i` what killed(pr) tells then.
unfoldable pub pipewrite : (ℕ → Option ℕ) → (ℕ → Bool) → ℕ → ℕ → Pipe → WriteStep
unfolding is_full put_byte
pipewrite src killed zero i p = written p i (nread_chan ∷ [])
pipewrite src killed (suc left) i p =
    let more : WriteStep = elim (src i) [
      | none ↦ written p i (nread_chan ∷ [])
      | some ch ↦ pipewrite src killed left (i + 1) (put_byte p ch)
    ] in
    if not p.readopen || killed i
    then refused p
    else if is_full p
    then asleep p i (nread_chan ∷ [])
    else more

-- How a step of piperead ends: it returns the number of bytes that it has copied out, with these, it
-- returns -1, or it sleeps on nread.
pub data ReadStep : Type 0 where
  got : Pipe → List ℕ → List PipeChan → ReadStep
  refused : Pipe → ReadStep
  asleep : Pipe → ReadStep

-- The second loop of piperead with n - i = left, `out` being the bytes copied so far; `dst i` tells
-- whether copyout to addr + i succeeds. A byte whose copyout fails has left the pipe.
unfoldable pub copy_out : (ℕ → Bool) → ℕ → ℕ → List ℕ → Pipe → Pipe × List ℕ
unfolding is_empty first_byte drop_byte
copy_out dst zero i out p = (p, out)
copy_out dst (suc left) i out p =
    let more = copy_out dst left (i + 1) (out ++ first_byte p ∷ []) (drop_byte p) in
    if is_empty p then (p, out) else if dst i then more else (drop_byte p, out)

-- piperead from its first test of the loop on.
unfoldable pub piperead : (ℕ → Bool) → Bool → ℕ → Pipe → ReadStep
unfolding copy_out
piperead dst killed n p =
    let r = copy_out dst n 0 [] p in
    if is_empty p && p.writeopen
    then if killed then refused p else asleep p
    else got r.0 r.1 (nwrite_chan ∷ [])

-- pipeclose: the pipe, the channel that it wakes, and whether it frees the page.
unfoldable pub pipeclose : Pipe → Bool → Pipe × PipeChan × Bool
pipeclose p writable =
    let q = if writable then record p { writeopen = false } else record p { readopen = false } in
    (q, if writable then nread_chan else nwrite_chan, not q.readopen && not q.writeopen)
