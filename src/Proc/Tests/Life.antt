-- ===== src/Proc/Tests/Life.antt =====
-- fork, forkn, exit, wait and waitall on the machine of Proc/Tests/Toy.
use operationg_systems.Prelude.{
  Bool, panic, ℕ, ◌≡◌, ◌≢◌, ◌⊎◌, inr, ◌<◌, refl, List, [], ◌∷◌, ◌++◌, map, true, false, not, ◌||◌,
  ◌==◌, if◌then◌else◌, none, some, ok, arith, replicate,
}
use operationg_systems.Proc.Types.{
  Proc, ProcState, Kernel, with_mem, proc_at, points_to, int_neg, proc_chan, same_state,
}
use operationg_systems.Proc.Tests.Toy.{toy, kernel, result_or, runner_entry}
use operationg_systems.Proc.Table.{go_to_sleep, killed}
use operationg_systems.Proc.Table.Reparent.{orphan}
use operationg_systems.Proc.Exit.{store_msg, exit, exit_num_text, become_zombie}
use operationg_systems.Proc.Exit.Zombie.{exit_lem, become_zombie_lem, become_zombie_wakes}
use operationg_systems.Proc.Alloc.{allocproc, find_unused, freeproc, proc_freepagetable}
use operationg_systems.Proc.Alloc.Laws.{Allocated, allocproc-Allocated}
use operationg_systems.Proc.Alloc.Untouched.{Untouched}
use operationg_systems.Proc.Fork.{fork, forkn}
use operationg_systems.Proc.Fork.Child.{Forked, fork_lem}
use operationg_systems.Proc.Fork.Forkn.{HasChildren, forkn_lem}
use operationg_systems.Proc.Wait.{
  is_zombie_child, WaitStep, WaitallStep, wait, reap, waitall_scan, waitall_round, waitall_end,
}
use operationg_systems.Proc.Wait.Reap.{has_child, wait_exact}
use operationg_systems.Proc.Wait.Rounds.{Ends, waitall_round_lem}
use operationg_systems.Proc.Wait.Copies.{IsFreed, reap_lem}
use operationg_systems.Proc.Wait.Statuses.{zombie_statuses, any_zombie, reaped, waitall_scan_exact}

awake : (p : Proc) → (same_state p.state ProcState.unused ≡ false) → p.state ≢ ProcState.unused
unfolding same_state
awake p e f = ground (arith, e, f)

abbrev forked : Kernel ℕ
forked = (result_or (fork toy 77 88 kernel 2) (kernel, 0)).0

fork_lem_example : Forked toy 77 88 kernel forked 2 5
unfolding fork same_state allocproc find_unused
fork_lem_example = fork_lem toy 77 88 kernel forked 2 5 (awake runner_entry refl) refl

abbrev forkn_of_2 : Kernel ℕ × ℕ × List ℕ
forkn_of_2 = result_or (forkn toy 77 88 kernel 2 2) (kernel, 0, [])

forkn_lem_example :
    (◌≡◌ {A = List ℕ} (5 ∷ 6 ∷ []) (5 ∷ 6 ∷ []))
    × HasChildren forkn_of_2.0.procs 2 runner_entry 0 (5 ∷ 6 ∷ [])
    × Untouched kernel forkn_of_2.0
unfolding forkn same_state allocproc find_unused
forkn_lem_example =
    forkn_lem toy 77 88 kernel forkn_of_2.0 2 2 (5 ∷ 6 ∷ []) (awake runner_entry refl) refl

abbrev allocated : Kernel ℕ
allocated = (result_or (allocproc toy 77 88 kernel) (kernel, none)).0

allocproc-Allocated_example : (q : Proc) × Allocated kernel allocated 4 q
unfolding allocproc find_unused
allocproc-Allocated_example = allocproc-Allocated toy 77 88 kernel allocated 4 refl

abbrev poor : Kernel ℕ
poor = record kernel { mem = 1 }

abbrev not_allocated : Kernel ℕ
not_allocated = (result_or (allocproc toy 77 88 poor) (poor, none)).0

abbrev exited : Kernel ℕ
exited = result_or (exit toy kernel 2 exit_num_text) kernel

exit_lem_example :
    orphan (proc_at exited 2)
    ≡ orphan (record runner_entry {
      exit_msg = store_msg (replicate 32 0) exit_num_text;
      ofile = replicate 16 0;
      cwd = 0;
      xstate = 0;
      state = ProcState.zombie;
    })
unfolding exit
exit_lem_example = exit_lem toy kernel 2 exit_num_text exited (omega arith) refl

become_zombie_lem_example :
    let k' = become_zombie kernel 2 in
    ((proc_at k' 2).state ≡ ProcState.zombie)
    × ((proc_at k' 2).xstate ≡ 0)
    × (points_to (proc_at k' 3).parent 2 ≡ false)
    × ((proc_at k' 3).parent ≡ some 0)
become_zombie_lem_example = become_zombie_lem kernel 2 3 (omega arith) refl

become_zombie_wakes_example :
    let k' = become_zombie kernel 2 in
    ((proc_at k' 1).state ≡ ProcState.runnable) × ((proc_at k' 2).parent ≡ some 1)
become_zombie_wakes_example =
    become_zombie_wakes kernel 2 1 (omega arith) refl (omega arith) (inr (refl, refl))

wait_exact_example :
    ((z : ℕ) × (z < 7)
      × (is_zombie_child 2 (proc_at kernel z) ≡ true)
      × ((j : ℕ) → j < z → is_zombie_child 2 (proc_at kernel j) ≡ false)
      × (wait toy 77 88 kernel 2 0 64 ≡ reap toy 77 88 kernel 2 0 64 z))
    ⊎ (((j : ℕ) → j < 7 → is_zombie_child 2 (proc_at kernel j) ≡ false)
        × (wait toy 77 88 kernel 2 0 64
            ≡ ok (
                if not (has_child 2 7 0 kernel.procs) || not (killed 2 kernel.procs == 0)
                then WaitStep.returned kernel (int_neg 1)
                else WaitStep.asleep
                    (record kernel { procs = go_to_sleep 2 (proc_chan 2) kernel.procs }))))
wait_exact_example = wait_exact toy 77 88 kernel 2 0 64

reap_lem_example :
    (((◌≡◌ {A = Bool} true false) ⊎ (◌≡◌ {A = Bool} true false))
      × ((k' : Kernel ℕ) × (reap toy 77 88 kernel 2 0 64 3 ≡ ok (WaitStep.returned k' (int_neg 1)))
          × (k'.procs ≡ kernel.procs)))
    ⊎ ((◌≡◌ {A = Bool} true true)
        × (◌≡◌ {A = Bool} true true)
        × ((s : ℕ) × (((freeproc toy 77 88 (with_mem kernel s) 3 ≡ panic)
                × (reap toy 77 88 kernel 2 0 64 3 ≡ panic))
              ⊎ ((k' : Kernel ℕ) × (reap toy 77 88 kernel 2 0 64 3 ≡ ok (WaitStep.returned k' 4))
                  × IsFreed kernel.procs k'.procs 3))))
reap_lem_example = reap_lem toy 77 88 kernel 2 0 64 3 (omega arith)

abbrev scanned : Kernel ℕ
scanned = (result_or (waitall_scan toy 77 88 2 7 0 kernel [] false) (kernel, [], false)).0

waitall_scan_exact_example :
    (◌≡◌ {A = List ℕ} (42 ∷ []) ([] ++ zombie_statuses 2 kernel.procs))
    × (scanned.procs ≡ map (reaped 2) kernel.procs)
    × (true ≡ any_zombie 2 kernel.procs)
unfolding waitall_scan freeproc proc_freepagetable
waitall_scan_exact_example = waitall_scan_exact toy 77 88 2 kernel [] scanned (42 ∷ []) true refl

-- Process 2 waits for two children and has one, a zombie: the round frees it and sleeps.
abbrev one_of_two : WaitallStep ℕ
one_of_two = result_or (waitall_round toy 77 88 kernel 2 64 128 2 []) (WaitallStep.asleep kernel [])

waitall_round_lem_example :
    Ends toy 77 88 2 64 128
      (map (reaped 2) kernel.procs)
      ([] ++ zombie_statuses 2 kernel.procs)
      (any_zombie 2 kernel.procs)
      2
      one_of_two
unfolding waitall_round waitall_scan freeproc proc_freepagetable
waitall_round_lem_example = waitall_round_lem toy 77 88 2 64 128 kernel 2 [] one_of_two refl

-- Process 1 has a child, process 2, that runs: waitall for one child returns with none.
early : waitall_round toy 77 88 kernel 1 64 128 1 [] ≡ ok (WaitallStep.returned kernel 0)
unfolding waitall_round waitall_scan waitall_end
early = refl
