-- ===== src/Virtio.antt =====
-- kernel/virtio_disk.c of Assignment1_2 behind its set-up: the descriptors, the requests and the interrupt.
-- Arrays are functions of the index. The device is not part of it: its used ring is an argument.
pub mod Descriptors
pub mod Chains
pub mod Sharing
mod Tests
use operationg_systems.Prelude.{
  ℕ, zero, suc, ◌+◌, ◌*◌, ◌%◌, ◌^◌, List, [], ◌∷◌, ◌++◌, Bool, true, false, not, ◌==◌, leb,
  if◌then◌else◌, Option, none, some, Outcome, ok, panic, ◌>>=◌,
}

-- a[i] = v
abbrev pub put {ℓ} : {A : Type ℓ} → (ℕ → A) → ℕ → A → ℕ → A
put f i v j = if j == i then v else f j

abbrev pub num : ℕ
num = 8

-- What an addr points to: nothing, disk.ops[i], the data of a buffer, or disk.info[i].status.
pub data Pointer : Type 0 where
  nowhere : Pointer
  op_at data_of status_at : ℕ → Pointer

pub record Desc : Type 0 where
  pub addr : Pointer
  pub len : ℕ
  pub flags : ℕ
  pub next : ℕ

pub record BlkReq : Type 0 where
  pub type : ℕ
  pub reserved : ℕ
  pub sector : ℕ

-- The channels of the sleeps, &disk.free[0] or a buffer.
pub data Chan : Type 0 where
  free_chan : Chan
  buf_chan : ℕ → Chan

-- disk, with b->disk of every buffer b, and with the wakeups so far. A buffer is its number, 0 being NULL.
pub record Disk : Type 0 where
  pub desc : ℕ → Desc
  pub free : ℕ → Bool
  pub used_idx : ℕ
  pub info_buf : ℕ → ℕ
  pub info_status : ℕ → ℕ
  pub ops : ℕ → BlkReq
  pub ring : ℕ → ℕ
  pub avail_idx : ℕ
  pub busy : ℕ → Bool
  pub woken : List Chan

-- The loop of alloc_desc from i on.
unfoldable pub alloc_from : ℕ → ℕ → Disk → Option ℕ × Disk
alloc_from zero i d = (none, d)
alloc_from (suc left) i d =
    let rest = alloc_from left (i + 1) d in
    if d.free i then (some i, record d { free = put d.free i false }) else rest

unfoldable pub alloc_desc : Disk → Option ℕ × Disk
unfolding alloc_from
alloc_desc d = alloc_from num 0 d

abbrev pub freed : ℕ → Disk → Disk
freed i d = record d {
  desc = put d.desc i (record { addr = nowhere; len = 0; flags = 0; next = 0 });
  free = put d.free i true;
  woken = d.woken ++ free_chan ∷ [];
}

unfoldable pub free_desc : ℕ → Disk → Outcome Disk
free_desc i d = if leb num i then panic else if d.free i then panic else ok (freed i d)

-- The loop of free_chain; NUM rounds free every descriptor, so that one more would panic.
unfoldable pub free_rounds : ℕ → ℕ → Disk → Outcome Disk
unfolding free_desc
free_rounds zero i d = panic
free_rounds (suc fuel) i d =
    let flag = (d.desc i).flags in
    let nxt = (d.desc i).next in
    let rest : Outcome Disk = free_desc i d >>= λ d'. free_rounds fuel nxt d' in
    let last : Outcome Disk = free_desc i d in if flag % 2 == 1 then rest else last

unfoldable pub free_chain : ℕ → Disk → Outcome Disk
unfolding free_rounds
free_chain i d = free_rounds num i d

-- The inner loop of alloc3_desc, and a round of the outer one behind alloc_desc.
unfoldable pub free_each : List ℕ → Disk → Outcome Disk
unfolding free_desc
free_each [] d = ok d
free_each (i ∷ idx) d = free_desc i d >>= λ d'. free_each idx d'

abbrev pub alloc_round :
    (List ℕ → Disk → Outcome (Option (List ℕ) × Disk))
    → List ℕ
    → Option ℕ × Disk
    → Outcome (Option (List ℕ) × Disk)
alloc_round next idx (none, d) = free_each idx d >>= λ d'. ok (none, d')
alloc_round next idx (some i, d) = next (idx ++ i ∷ []) d

unfoldable pub alloc_each : ℕ → List ℕ → Disk → Outcome (Option (List ℕ) × Disk)
unfolding alloc_desc
alloc_each zero idx d = ok (some idx, d)
alloc_each (suc left) idx d = alloc_round (λ idx' d'. alloc_each left idx' d') idx (alloc_desc d)

-- idx, or none for -1.
unfoldable pub alloc3_desc : Disk → Outcome (Option (List ℕ) × Disk)
unfolding alloc_each
alloc3_desc d = alloc_each 3 [] d

-- A request as the caller of virtio_disk_rw gives it: the buffer, its blockno, and write.
pub record Request : Type 0 where
  pub buf : ℕ
  pub blockno : ℕ
  pub write : Bool

-- The three descriptors of a request.
unfoldable pub chain_of : Request → ℕ → ℕ → ℕ → (ℕ → Desc) → ℕ → Desc
chain_of r i0 i1 i2 desc =
    let head : Desc = record { addr = op_at i0; len = 16; flags = 1; next = i1 } in
    let body : Desc = record {
      addr = data_of r.buf;
      len = 1024;
      flags = if r.write then 1 else 3;
      next = i2;
    } in
    let tail : Desc = record { addr = status_at i0; len = 1; flags = 2; next = 0 } in
    put (put (put desc i0 head) i1 body) i2 tail

-- virtio_disk_rw from the format of the descriptors to the notification of the device.
unfoldable pub submit : Request → ℕ → ℕ → ℕ → Disk → Disk
unfolding chain_of
submit r i0 i1 i2 d = record d {
  ops =
      put d.ops i0
        (record { type = if r.write then 1 else 0; reserved = 0; sector = r.blockno * 2 % 2 ^ 32 });
  desc = chain_of r i0 i1 i2 d.desc;
  info_status = put d.info_status i0 0xff;
  busy = put d.busy r.buf true;
  info_buf = put d.info_buf i0 r.buf;
  ring = put d.ring (d.avail_idx % num) i0;
  avail_idx = (d.avail_idx + 1) % 2 ^ 16;
}

-- How a step of virtio_disk_rw ends: asleep on a channel, with the request at the device, or done.
pub data RwStep : Type 0 where
  asleep : Chan → Disk → RwStep
  submitted : ℕ → ℕ → ℕ → Disk → RwStep
  done : Disk → RwStep

-- virtio_disk_rw up to the wait for the device; idx has three elements.
abbrev pub rw_alloced : Request → Option (List ℕ) × Disk → RwStep
rw_alloced r (none, d) = asleep free_chan d
rw_alloced r (some (i0 ∷ i1 ∷ i2 ∷ idx), d) = submitted i0 i1 i2 (submit r i0 i1 i2 d)
rw_alloced r (some idx, d) = asleep free_chan d

unfoldable pub rw_start : Request → Disk → Outcome RwStep
unfolding alloc3_desc submit
rw_start r d = alloc3_desc d >>= λ a. ok (rw_alloced r a)

-- virtio_disk_rw from the wait on, with i0 = idx[0].
unfoldable pub rw_end : ℕ → ℕ → Disk → Outcome RwStep
unfolding free_chain
rw_end i0 b d =
    let over : Outcome RwStep =
      free_chain i0 (record d { info_buf = put d.info_buf i0 0 }) >>= λ d'. ok (done d') in
    if d.busy b then ok (asleep (buf_chan b) d) else over

-- A round of virtio_disk_intr for the id in the used ring.
unfoldable pub complete : ℕ → Disk → Outcome Disk
complete id d =
    let b = d.info_buf id in
    if not (d.info_status id == 0)
    then panic
    else ok (record d {
      busy = put d.busy b false;
      woken = d.woken ++ buf_chan b ∷ [];
      used_idx = (d.used_idx + 1) % 2 ^ 16;
    })

-- Its loop, with a round for each of the elements of the used ring that the device has added at most.
unfoldable pub intr_from : ℕ → (ℕ → ℕ) → ℕ → Disk → Outcome Disk
unfolding complete
intr_from zero ids idx d = ok d
intr_from (suc fuel) ids idx d =
    let rest : Outcome Disk =
      complete (ids (d.used_idx % num)) d >>= λ d'. intr_from fuel ids idx d' in
    if d.used_idx == idx then ok d else rest

-- ids and idx are disk.used.
unfoldable pub virtio_disk_intr : (ℕ → ℕ) → ℕ → Disk → Outcome Disk
unfolding intr_from
virtio_disk_intr ids idx d = intr_from (2 ^ 16) ids idx d
