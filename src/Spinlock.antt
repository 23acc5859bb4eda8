-- ===== src/Spinlock.antt =====
-- kernel/spinlock.c of Assignment1_2. A cpu is its interrupt flag and the two fields of struct cpu that
-- push_off and pop_off keep; `struct cpu *` is the number of the cpu, or none. acquire and release are cut
-- at each access to the lock that another cpu can see: those are the steps of Spinlock/Exclusion.
pub mod Nesting
pub mod Exclusion
mod Tests
use operationg_systems.Prelude.{
  ℕ, zero, suc, ◌+◌, ◌-◌, ◌%◌, ◌^◌, Bool, true, false, ◌&&◌, ◌==◌, if◌then◌else◌, Option, none,
  some, Outcome, ok, panic,
}
use operationg_systems.Proc.Types.{int_lt, points_to}

pub record Cpu : Type 0 where
  pub interrupts : Bool
  pub noff : ℕ
  pub intena : Bool

pub record Spinlock : Type 0 where
  pub locked : Bool
  pub cpu : Option ℕ

unfoldable pub initlock : Spinlock
initlock = record { locked = false; cpu = none }

-- whether cpu `i` holds the lock
unfoldable pub holding : ℕ → Spinlock → Bool
holding i lk = lk.locked && points_to lk.cpu i

-- noff is an int, in 32 bits.
unfoldable pub push_off : Cpu → Cpu
push_off c = record {
  interrupts = false;
  noff = (c.noff + 1) % 2 ^ 32;
  intena = if c.noff == 0 then c.interrupts else c.intena;
}

unfoldable pub pop_off : Cpu → Outcome Cpu
pop_off c =
    let n = (c.noff + 2 ^ 32 - 1) % 2 ^ 32 in
    if c.interrupts
    then panic
    else if int_lt c.noff 1
    then panic
    else ok (record c { noff = n; interrupts = if n == 0 && c.intena then true else c.interrupts })

-- acquire up to its loop: push_off, and a panic if the cpu holds the lock.
unfoldable pub enter_acquire : ℕ → Spinlock → Cpu → Outcome Cpu
unfolding push_off holding
enter_acquire i lk c = if holding i lk then panic else ok (push_off c)

-- __sync_lock_test_and_set(&lk->locked, 1): the lock, and what was there.
unfoldable pub test_and_set : Spinlock → Spinlock × Bool
test_and_set lk = (record lk { locked = true }, lk.locked)

-- lk->cpu = mycpu();
unfoldable pub record_cpu : ℕ → Spinlock → Spinlock
record_cpu i lk = record lk { cpu = some i }

-- release up to lk->cpu = 0.
unfoldable pub clear_cpu : ℕ → Spinlock → Outcome Spinlock
unfolding holding
clear_cpu i lk = if holding i lk then ok (record lk { cpu = none }) else panic

-- __sync_lock_release(&lk->locked);
unfoldable pub lock_release : Spinlock → Spinlock
lock_release lk = record lk { locked = false }
