-- ===== src/Proc/Table.antt =====
-- kernel/proc.c of Assignment1_2, what touches the process table alone: procinit, wakeup, kill,
-- setkilled, killed, reparent, sleep and yield up to sched(), and the scheduler's choice.
pub mod Wake
pub mod Reparent
use operationg_systems.Prelude.{
  ℕ, zero, suc, ◌+◌, ◌-◌, ◌*◌, ◌^◌, List, [], ◌∷◌, Bool, true, false, not, ◌&&◌, ◌==◌,
  if◌then◌else◌, Option, none, some, length, set,
}
use operationg_systems.Proc.Types.{
  Proc, ProcState, unused, sleeping, runnable, running, same_state, Chan, no_chan, proc_chan,
  same_chan, Kernel, entry, proc_at, put_proc, points_to, int_neg, null_proc, nproc,
}

-- KSTACK(p) of memlayout.h, with TRAMPOLINE = MAXVA - PGSIZE
abbrev pub kstack_of : ℕ → ℕ
kstack_of i = 2 ^ 38 - 4096 - (i + 1) * 2 * 4096

-- procinit: every entry UNUSED, with its kernel stack.
unfoldable pub init_from : ℕ → List Proc → List Proc
init_from i [] = []
init_from i (p ∷ ps) = record p { state = unused; kstack = kstack_of i } ∷ init_from (i + 1) ps

unfoldable pub procinit : List Proc → List Proc
unfolding init_from
procinit ps = init_from 0 ps

-- The body of wakeup's loop.
unfoldable pub wake_one : Chan → Proc → Proc
unfolding same_state same_chan
wake_one c p =
    if same_state p.state sleeping && same_chan p.chan c then record p { state = runnable } else p

-- wakeup(chan), run by process `me`: every process but `me` that sleeps on the channel.
unfoldable pub wake_from : ℕ → Chan → ℕ → List Proc → List Proc
wake_from me c i [] = []
wake_from me c i (p ∷ ps) = (if i == me then p else wake_one c p) ∷ wake_from me c (i + 1) ps

unfoldable pub wakeup : ℕ → Chan → List Proc → List Proc
wakeup me c ps = wake_from me c 0 ps

-- Several wakeups in a row.
unfoldable pub wake_all : ℕ → List Chan → List Proc → List Proc
wake_all me [] ps = ps
wake_all me (c ∷ cs) ps = wake_all me cs (wakeup me c ps)

-- The entry that kill() found.
unfoldable pub kill_one : Proc → Proc
unfolding same_state
kill_one p =
    if same_state p.state sleeping
    then record p { killed = 1; state = runnable }
    else record p { killed = 1 }

-- kill(pid): the first entry with this pid. The int is 0, or -1 if there is none.
unfoldable pub kill : ℕ → List Proc → List Proc × ℕ
unfolding kill_one
kill pid [] = ([], int_neg 1)
kill pid (p ∷ ps) =
    let rest = kill pid ps in if p.pid == pid then (kill_one p ∷ ps, 0) else (p ∷ rest.0, rest.1)

unfoldable pub setkilled : ℕ → List Proc → List Proc
setkilled i ps = set ps i (record (entry ps i) { killed = 1 })

abbrev pub killed : ℕ → List Proc → ℕ
killed i ps = (entry ps i).killed

-- A `struct proc *` passed as a channel.
abbrev pub chan_of : Option ℕ → Chan
chan_of none = no_chan
chan_of (some i) = proc_chan i

-- The body of the loop of reparent(p), run by p = `me`, at the entry `i`.
unfoldable pub adopt_one : Option ℕ → ℕ → ℕ → List Proc → List Proc
adopt_one init me i ps =
    if points_to (entry ps i).parent me
    then wakeup me (chan_of init) (set ps i (record (entry ps i) { parent = init }))
    else ps

-- The loop, with `n` entries left from index `i` on.
unfoldable pub reparent_from : Option ℕ → ℕ → ℕ → ℕ → List Proc → List Proc
reparent_from init me zero i ps = ps
reparent_from init me (suc n) i ps = reparent_from init me n (i + 1) (adopt_one init me i ps)

unfoldable pub reparent : Option ℕ → ℕ → List Proc → List Proc
reparent init me ps = reparent_from init me (length ps) 0 ps

-- sleep(chan, lk) up to sched(), and from there on.
unfoldable pub go_to_sleep : ℕ → Chan → List Proc → List Proc
go_to_sleep me c ps = set ps me (record (entry ps me) { chan = c; state = sleeping })

unfoldable pub wake_up_from_sleep : ℕ → List Proc → List Proc
wake_up_from_sleep me ps = set ps me (record (entry ps me) { chan = no_chan })

-- yield() up to sched().
unfoldable pub yield : ℕ → List Proc → List Proc
yield me ps = set ps me (record (entry ps me) { state = runnable })

-- The scheduler at entry `i` of its loop: it runs the process if that is RUNNABLE. The Bool tells
-- whether it switched.
unfoldable pub schedule : ℕ → List Proc → List Proc × Bool
unfolding same_state
schedule i ps =
    if same_state (entry ps i).state runnable
    then (set ps i (record (entry ps i) { state = running }), true)
    else (ps, false)
