-- ===== src/Spinlock/Tests.antt =====
-- The theorems on kernel/spinlock.c at a cpu, and at a lock that cpu 1 takes while cpu 0 spins.
use operationg_systems.Prelude.{ℕ, ◌≡◌, refl, true, false}
use operationg_systems.Spinlock.{Cpu, initlock, push_off, test_and_set, record_cpu, enter_acquire}
use operationg_systems.Spinlock.Exclusion.{
  System, Step, Reach, move, fresh, spins, taken, critical, mutual_exclusion,
}

abbrev open_cpu : Cpu
open_cpu = record { interrupts = true; noff = 0; intena = false }

abbrev entered : System
entered = record { lock = initlock; places = move fresh.places 0 spins }

abbrev both_spin : System
both_spin = record { lock = initlock; places = move entered.places 1 spins }

abbrev one_took : System
one_took = record { lock = (test_and_set initlock).0; places = move both_spin.places 1 taken }

abbrev one_in : System
one_in = record { lock = record_cpu 1 one_took.lock; places = move one_took.places 1 critical }

one_in-Reach : Reach fresh one_in
unfolding initlock enter_acquire test_and_set
one_in-Reach =
    Reach.next
      (Reach.next
        (Reach.next (Reach.next Reach.here (Step.enters 0 open_cpu (push_off open_cpu) refl refl))
          (Step.enters 1 open_cpu (push_off open_cpu) refl refl))
        (Step.takes 1 refl refl))
      (Step.records 1 refl)

mutual_exclusion_example : ◌≡◌ {A = ℕ} 1 1
mutual_exclusion_example = mutual_exclusion {t = one_in} 1 1 one_in-Reach refl refl
