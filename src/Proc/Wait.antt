-- ===== src/Proc/Wait.antt =====
-- kernel/proc.c of Assignment1_2: wait and waitall. Each holds wait_lock from one sleep() to the next,
-- so one pass over the table is one step: it returns, or it goes to sleep on its own channel and the
-- next pass begins with what the kernel is by then.
pub mod Reap
pub mod Copies
pub mod Statuses
pub mod Rounds
use operationg_systems.Prelude.{
  ℕ, zero, suc, ◌+◌, ◌*◌, ◌%◌, ◌/◌, ◌^◌, List, [], ◌∷◌, ◌++◌, Bool, true, false, not, ◌&&◌, ◌||◌,
  ◌==◌, if◌then◌else◌, Option, none, some, Outcome, ok, panic, ◌>>=◌, length, take,
}
use operationg_systems.Str.{strlen}
use operationg_systems.Proc.Types.{
  Proc, ProcState, zombie, same_state, Kernel, entry, proc_at, with_mem, points_to, proc_chan,
  int_neg, int_lt,
}
use operationg_systems.Proc.Machine.{Machine}
use operationg_systems.Proc.Table.{go_to_sleep, killed}
use operationg_systems.Proc.Alloc.{freeproc}

-- The bytes of an int in memory, and an int from its bytes.
unfoldable pub int_bytes : ℕ → List ℕ
int_bytes v = v % 256 ∷ (v / 256) % 256 ∷ (v / 65536) % 256 ∷ (v / 16777216) % 256 ∷ []

unfoldable pub bytes_int : List ℕ → ℕ
bytes_int (a ∷ b ∷ c ∷ d ∷ []) = a + 256 * b + 65536 * c + 16777216 * d
bytes_int _ = 0

unfoldable pub ints_bytes : List ℕ → List ℕ
ints_bytes [] = []
ints_bytes (v ∷ vs) = int_bytes v ++ ints_bytes vs

-- pp->parent == p && pp->state == ZOMBIE
unfoldable pub is_zombie_child : ℕ → Proc → Bool
unfolding same_state
is_zombie_child me p = points_to p.parent me && same_state p.state zombie

-- What a pass of wait ends with: the int that it returns, or sleep.
pub data WaitStep (Mem : Type 0) : Type 0 where
  returned : Kernel Mem → ℕ → WaitStep Mem
  asleep : Kernel Mem → WaitStep Mem

-- The same of waitall, which keeps the statuses that it has collected while it sleeps.
pub data WaitallStep (Mem : Type 0) : Type 0 where
  returned : Kernel Mem → ℕ → WaitallStep Mem
  asleep : Kernel Mem → List ℕ → WaitallStep Mem

module _ (m : Machine) (trampoline forkret : ℕ) where
  open m use {Mem, copyout, copyin}

  -- wait once it has found the zombie child `i`: the status, the message (at msg_addr, also if that is
  -- NULL), the message once more, and freeproc.
  unfoldable pub reap : Kernel Mem → ℕ → ℕ → ℕ → ℕ → Outcome (WaitStep Mem)
  reap k me addr msg_addr i =
      let pp = proc_at k i in
      let table = (proc_at k me).pagetable in
      let copied : Bool × Mem =
        if addr == 0 then (true, k.mem) else copyout table addr (int_bytes pp.xstate) k.mem in
      let messaged = copyout table msg_addr (take (strlen pp.exit_msg + 1) pp.exit_msg) copied.1 in
      let s =
        if msg_addr == 0 then messaged.1 else (copyout table msg_addr pp.exit_msg messaged.1).1 in
      if not copied.0
      then ok (returned (with_mem k copied.1) (int_neg 1))
      else if not messaged.0
      then ok (returned (with_mem k messaged.1) (int_neg 1))
      else (freeproc m trampoline forkret (with_mem k s) i >>= λ k'. ok (returned k' pp.pid))

  -- wait behind its loop over the table.
  wait_end : Kernel Mem → ℕ → Bool → WaitStep Mem
  wait_end k me havekids =
      if not havekids || not (killed me k.procs == 0)
      then returned k (int_neg 1)
      else asleep (record k { procs = go_to_sleep me (proc_chan me) k.procs })

  -- The loop over the table, with `n` entries left from index `i` on.
  unfoldable pub wait_scan : Kernel Mem → ℕ → ℕ → ℕ → ℕ → ℕ → Bool → Outcome (WaitStep Mem)
  unfolding wait_end is_zombie_child
  wait_scan k me addr msg_addr zero i havekids = ok (wait_end k me havekids)
  wait_scan k me addr msg_addr (suc n) i havekids =
      let rest =
        wait_scan k me addr msg_addr n (i + 1) (havekids || points_to (proc_at k i).parent me) in
      if is_zombie_child me (proc_at k i) then reap k me addr msg_addr i else rest

  unfoldable pub wait : Kernel Mem → ℕ → ℕ → ℕ → Outcome (WaitStep Mem)
  unfolding wait_scan
  wait k me addr msg_addr = wait_scan k me addr msg_addr (length k.procs) 0 false

  -- The loop of waitall over the table: every zombie child is freed, its xstatus goes to
  -- local_statuses, and the Bool is `found`.
  unfoldable pub waitall_scan :
      ℕ → ℕ → ℕ → Kernel Mem → List ℕ → Bool → Outcome (Kernel Mem × List ℕ × Bool)
  unfolding is_zombie_child
  waitall_scan me zero i k statuses found = ok (k, statuses, found)
  waitall_scan me (suc n) i k statuses found =
      let skip = waitall_scan me n (i + 1) k statuses found in
      let reaped = freeproc m trampoline forkret k i >>= λ k'.
      waitall_scan me n (i + 1) k' (statuses ++ (proc_at k i).xstatus ∷ []) true in
      if is_zombie_child me (proc_at k i) then reaped else skip

  -- waitall behind its loop: both copies to user space.
  unfoldable pub waitall_end : Kernel Mem → ℕ → ℕ → ℕ → List ℕ → WaitallStep Mem
  waitall_end k me n_addr statuses_addr statuses =
      let table = (proc_at k me).pagetable in
      let counted = copyout table n_addr (int_bytes (length statuses)) k.mem in
      let listed = copyout table statuses_addr (ints_bytes statuses) counted.1 in
      if not counted.0
      then returned (with_mem k counted.1) (int_neg 1)
      else returned (with_mem k listed.1) (if listed.0 then 0 else int_neg 1)

  -- One round of while(1), with `statuses` collected so far.
  unfoldable pub waitall_round : Kernel Mem → ℕ → ℕ → ℕ → ℕ → List ℕ → Outcome (WaitallStep Mem)
  waitall_round k me n_addr statuses_addr expected statuses = do
    (k', all, found) ← waitall_scan me (length k.procs) 0 k statuses false
    ok (
        if not (int_lt (length all) expected) || not found
        then waitall_end k' me n_addr statuses_addr all
        else asleep (record k' { procs = go_to_sleep me (proc_chan me) k'.procs }) all)

  -- waitall up to its first sleep.
  unfoldable pub waitall : Kernel Mem → ℕ → ℕ → ℕ → Outcome (WaitallStep Mem)
  waitall k me n_addr statuses_addr = elim (copyin (proc_at k me).pagetable n_addr 4 k.mem) [
    | none ↦ ok (returned k (int_neg 1))
    | some bytes ↦ waitall_round k me n_addr statuses_addr (bytes_int bytes) []
  ]
