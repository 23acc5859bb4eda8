-- ===== src/Log/Tests.antt =====
-- The theorems on kernel/log.c at a log that begins in block 2.
use operationg_systems.Prelude.{
  ◌≡◌, ◌⊎◌, inr, [], ◌∷◌, refl, arith, ok, true, false, ◌==◌, if◌then◌else◌,
}
use operationg_systems.Log.{Log, Blocks, absorbed, get_head, commit, begin_op, log_write}
use operationg_systems.Log.Disk.{All}
use operationg_systems.Log.Crash.{IsReady, AllOld, AllNew, commit_atomic}
use operationg_systems.Log.Space.{System, Step, Reach, log_write_has_room}

-- Blocks 40 and 41 are in the log, with new contents in the buffer cache.
abbrev two_blocks : Log
two_blocks = record {
  start = 2;
  size = 31;
  outstanding = 0;
  committing = true;
  lh = 40 ∷ 41 ∷ [];
  disk = λ _. [];
  view = λ b. if b == 40 then 5 ∷ [] else if b == 41 then 6 ∷ [] else [];
  pins = λ _. 1;
  trace = [];
}

two_blocks-IsReady : IsReady two_blocks
unfolding absorbed get_head
two_blocks-IsReady = record {
  homes = (inr (omega arith), (inr (omega arith), tt));
  distinct = (refl, (refl, tt));
  room = omega arith;
  clean = refl;
}

commit_atomic_example :
    All
      (λ d. AllOld two_blocks d ⊎ AllNew two_blocks d)
      (commit (record two_blocks { trace = [] })).trace
commit_atomic_example = commit_atomic two_blocks two_blocks-IsReady

-- A disk whose header lists block 40.
abbrev one_logged : Blocks
one_logged b = if b == 2 then 1 ∷ 40 ∷ [] else if b == 3 then 8 ∷ [] else []

abbrev idle : System
idle = record { log = record two_blocks { committing = false; lh = [] }; quotas = [] }

abbrev one_call : System
one_call = record {
  log = record two_blocks { committing = false; lh = []; outstanding = 1 };
  quotas = 10 ∷ [];
}

one_call-Reach : Reach idle one_call
unfolding begin_op
one_call-Reach = Reach.next Reach.here (Step.begins one_call.log refl)

log_write_has_room_example : (l : Log) × (log_write 40 one_call.log ≡ ok l)
log_write_has_room_example =
    log_write_has_room {s = idle} {t = one_call} 0 9 40
      (record { empty = refl; unused = refl; calls = refl; quiet = refl }) one_call-Reach
      (omega arith) refl
