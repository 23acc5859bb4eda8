-- ===== src/Proc/Tests/Clock.antt =====
-- A look of sys_sleep at the clock, which has wrapped since the call.
use operationg_systems.Prelude.{ℕ, ◌+◌, ◌-◌, ◌%◌, ◌^◌, ◌≡◌, ◌≢◌, ◌<◌, ◌≤◌, ◌⊎◌, arith}
use operationg_systems.Proc.Types.{ticks_chan}
use operationg_systems.Proc.Table.{killed, go_to_sleep}
use operationg_systems.Proc.Tests.Toy.{kernel}
use operationg_systems.Proc.Sys.Clock.{SleepStep, sleep_look, sleep_look_exact}

abbrev late : ℕ
late = 2 ^ 32 - 1

sleep_look_exact_example :
    let r = sleep_look kernel 2 late 10 ((late + 3) % 2 ^ 32) in
    ((10 ≤ 3) × (r ≡ SleepStep.returned 0))
    ⊎ ((3 < 10) × (killed 2 kernel.procs ≢ 0) × (r ≡ SleepStep.returned (2 ^ 64 - 1)))
    ⊎ ((3 < 10)
        × (killed 2 kernel.procs ≡ 0)
        × (r ≡ SleepStep.asleep (record kernel { procs = go_to_sleep 2 ticks_chan kernel.procs })))
sleep_look_exact_example = sleep_look_exact kernel 2 late 10 3 (omega arith) (omega arith)
