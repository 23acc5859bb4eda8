-- ===== src/Proc/Sys/Clock.antt =====
-- sys_sleep and sys_uptime of kernel/sysproc.c. `ticks` is the uint that clockintr counts in trap.c. A look
-- of sys_sleep at the clock is one step: it returns, or it sleeps on &ticks.
use operationg_systems.Prelude.{
  ℕ, ◌+◌, ◌-◌, ◌%◌, ◌^◌, ◌≡◌, ◌≢◌, ◌<◌, ◌≤◌, ◌⊎◌, inl, inr, refl, not, ◌==◌, ltb, if◌then◌else◌,
  arith, Bool-cases, Outcome, ok, ◌>>=◌,
}
use operationg_systems.Proc.Types.{Kernel, proc_at, ticks_chan}
use operationg_systems.Proc.Table.{killed, go_to_sleep}
use operationg_systems.Proc.Sys.{argint}

pub data SleepStep (Mem : Type 0) : Type 0 where
  returned : ℕ → SleepStep Mem
  asleep : Kernel Mem → SleepStep Mem

-- sys_uptime reads the clock.
unfoldable pub sys_uptime : ℕ → ℕ
sys_uptime ticks = ticks

module _ {Mem : Type 0} where
  -- The test of the loop and its body: ticks - ticks0 < n compares unsigned ints.
  unfoldable pub sleep_look : Kernel Mem → ℕ → ℕ → ℕ → ℕ → SleepStep Mem
  sleep_look k me ticks0 n ticks =
      if ltb ((ticks + 2 ^ 32 - ticks0) % 2 ^ 32) n
      then if not (killed me k.procs == 0)
        then returned (2 ^ 64 - 1)
        else asleep (record k { procs = go_to_sleep me ticks_chan k.procs })
      else returned 0

  -- sys_sleep up to its first sleep.
  unfoldable pub sys_sleep : Kernel Mem → ℕ → ℕ → Outcome (SleepStep Mem)
  sys_sleep k me ticks = argint (proc_at k me) 0 >>= λ n. ok (sleep_look k me ticks n ticks)

  -- What a look does once `elapsed` ticks have passed since the call, although the counter may have
  -- wrapped: if they are n or more, it returns 0; if they are fewer, it returns -1 for a process that is
  -- killed and else sleeps on.
  pub sleep_look_exact :
      (k : Kernel Mem) (me ticks0 n elapsed : ℕ)
      → ticks0 < 2 ^ 32
      → elapsed < 2 ^ 32
      → let r = sleep_look k me ticks0 n ((ticks0 + elapsed) % 2 ^ 32) in
        ((n ≤ elapsed) × (r ≡ returned 0))
        ⊎ ((elapsed < n) × (killed me k.procs ≢ 0) × (r ≡ returned (2 ^ 64 - 1)))
        ⊎ ((elapsed < n)
            × (killed me k.procs ≡ 0)
            × (r ≡ asleep (record k { procs = go_to_sleep me ticks_chan k.procs })))
  unfolding sleep_look
  sleep_look_exact k me ticks0 n elapsed h b =
      let e : ((ticks0 + elapsed) % 2 ^ 32 + 2 ^ 32 - ticks0) % 2 ^ 32 ≡ elapsed = omega arith in
      elim (Bool-cases (ltb elapsed n)) [
        | inr past ↦ inl (ground (arith, past), rw (e, past) refl)
        | inl early ↦ elim (Bool-cases (killed me k.procs == 0)) [
          | inl live ↦
              inr (inr (ground (arith, early), ground (arith, live), rw (e, early, live) refl))
          | inr dead ↦
              inr (inl (ground (arith, early), ground (arith, dead), rw (e, early, dead) refl))
        ]
      ]
