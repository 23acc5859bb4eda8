-- ===== src/Virtio/Tests.antt =====
-- Requests on a disk whose descriptors are all free.
use operationg_systems.Prelude.{
  ℕ, ◌+◌, ◌≡◌, ◌≢◌, refl, List, [], ◌∷◌, ◌++◌, true, false, ltb, if◌then◌else◌, ok, panic,
}
use operationg_systems.Virtio.{
  num, Disk, Chan, Request, asleep, submitted, done, RwStep, nowhere, submit, rw_start, rw_end,
}
use operationg_systems.Virtio.Descriptors.{Chain, taken}
use operationg_systems.Virtio.Chains.{count}
use operationg_systems.Virtio.Sharing.{
  System, here, next, started, after_start, IsIdle, released, descriptors_shared,
}

abbrev idle_disk : Disk
idle_disk = record {
  desc = λ i. record { addr = nowhere; len = 0; flags = 0; next = 0 };
  free = λ i. ltb i num;
  used_idx = 0;
  info_buf = λ i. 0;
  info_status = λ i. 0;
  ops = λ i. record { type = 0; reserved = 0; sector = 0 };
  ring = λ i. 0;
  avail_idx = 0;
  busy = λ b. false;
  woken = [];
}

abbrev idle_system : System
idle_system = record { disk = idle_disk; chains = [] }

abbrev writing : Request
writing = record { buf = 1; blockno = 3; write = true }

abbrev three_taken : Disk
three_taken = taken 2 (taken 1 (taken 0 idle_disk))

abbrev first_step : RwStep
first_step = submitted 0 1 2 (submit writing 0 1 2 three_taken)

started_first : rw_start writing idle_disk ≡ ok first_step
unfolding rw_start
started_first = refl

-- The device has the buffer still.
waits :
    rw_end 0 1 (submit writing 0 1 2 three_taken)
    ≡ ok (asleep (Chan.buf_chan 1) (submit writing 0 1 2 three_taken))
unfolding rw_end submit
waits = refl

abbrev one_request : System
one_request = after_start [] first_step

idle_system-IsIdle : IsIdle idle_system
idle_system-IsIdle = record { all_free = λ i. refl; no_chains = refl }

descriptors_shared_example :
    ((i : ℕ)
      → count one_request.chains i + (if one_request.disk.free i then 1 else 0)
        ≡ (if ltb i num then 1 else 0))
    × ((r : Request) → rw_start r one_request.disk ≢ panic)
    × ((xs ys : List Chain) (c : Chain) (b : ℕ)
        → one_request.chains ≡ xs ++ c ∷ ys
        → rw_end c.first b one_request.disk
          ≡ ok (
              if one_request.disk.busy b
              then asleep (Chan.buf_chan b) one_request.disk
              else done (released c one_request.disk)))
descriptors_shared_example =
    descriptors_shared idle_system-IsIdle (next here (started writing started_first))
