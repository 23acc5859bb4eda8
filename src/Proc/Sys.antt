-- ===== src/Proc/Sys.antt =====
-- kernel/sysproc.c of Assignment1_2: the system calls on processes, and argraw of kernel/syscall.c.
-- What leads to the end of the process has no result but the kernel.
pub mod Calls
pub mod Clock
use operationg_systems.Prelude.{
  ℕ, zero, suc, ◌+◌, ◌*◌, ◌%◌, ◌^◌, List, [], ◌∷◌, Bool, true, false, not, ◌||◌, ◌==◌,
  if◌then◌else◌, Option, none, some, Outcome, ok, panic, ◌>>=◌, ltb, get_elem?, ◌-◌,
}
use operationg_systems.Proc.Types.{
  Proc, Kernel, Trapframe, entry, proc_at, put_proc, with_mem, int_neg, int_lt, reg_a0,
}
use operationg_systems.Proc.Machine.{Machine}
use operationg_systems.Proc.Table.{kill}
use operationg_systems.Proc.Alloc.{growproc}
use operationg_systems.Proc.Fork.{fork, forkn}
use operationg_systems.Proc.Exit.{exit_num, exit_msg}
use operationg_systems.Proc.Wait.{WaitStep, WaitallStep, returned, wait, waitall, ints_bytes}

-- argraw(n): the register a0 + n of the trapframe, for n below 6.
unfoldable pub argraw : Proc → ℕ → Outcome ℕ
argraw p n = elim p.trapframe [
  | none ↦ panic
  | some t ↦
      if ltb n 6
      then elim (get_elem? t.regs (reg_a0 + n)) [ none ↦ panic | some v ↦ ok v ]
      else panic
]

-- argint keeps the low 32 bits; argaddr keeps all.
unfoldable pub argint : Proc → ℕ → Outcome ℕ
unfolding argraw
argint p n = argraw p n >>= λ v. ok (v % 2 ^ 32)

-- An int returned by a system call is sign-extended to uint64.
unfoldable pub sign_extend : ℕ → ℕ
sign_extend v = if ltb v (2 ^ 31) then v else v + (2 ^ 64 - 2 ^ 32)

module _ (m : Machine) (trampoline forkret : ℕ) where
  open m use {Mem, copyout}

  unfoldable pub sys_exit : Kernel Mem → ℕ → Outcome (Kernel Mem)
  sys_exit k me = argint (proc_at k me) 0 >>= exit_num m k me

  unfoldable pub sys_exit_num : Kernel Mem → ℕ → Outcome (Kernel Mem)
  sys_exit_num k me = argint (proc_at k me) 0 >>= exit_num m k me

  unfoldable pub sys_getpid : Kernel Mem → ℕ → ℕ
  sys_getpid k me = (proc_at k me).pid

  unfoldable pub sys_fork : Kernel Mem → ℕ → Outcome (Kernel Mem × ℕ)
  sys_fork k me = fork m trampoline forkret k me >>= λ (k', r). ok (k', sign_extend r)

  -- one pass of wait, as in Proc/Wait
  unfoldable pub sys_wait : Kernel Mem → ℕ → Outcome (WaitStep Mem)
  sys_wait k me = do
    status_addr ← argraw (proc_at k me) 0
    msg_addr ← argraw (proc_at k me) 1
    wait m trampoline forkret k me status_addr msg_addr

  unfoldable pub sys_sbrk : Kernel Mem → ℕ → Outcome (Kernel Mem × ℕ)
  sys_sbrk k me = do
    n ← argint (proc_at k me) 0
    (k', r) ← growproc m trampoline forkret k me n
    ok (if int_lt r 0 then (k', 2 ^ 64 - 1) else (k', (proc_at k me).sz))

  unfoldable pub sys_kill : Kernel Mem → ℕ → Outcome (Kernel Mem × ℕ)
  sys_kill k me = do
    pid ← argint (proc_at k me) 0
    let (ps, r) = kill pid k.procs
    ok (record k { procs = ps }, sign_extend r)

  unfoldable pub sys_memsize : Kernel Mem → ℕ → ℕ
  sys_memsize k me = (proc_at k me).sz

  -- sys_forkn behind the call of forkn: the array goes to user space if the int is 0.
  forkn_result : ℕ → ℕ → Kernel Mem → ℕ → List ℕ → Kernel Mem × ℕ
  forkn_result me pids_addr k r pids =
      let copied = copyout (proc_at k me).pagetable pids_addr (ints_bytes pids) k.mem in
      if r == 0
      then (with_mem k copied.1, if copied.0 then sign_extend r else 2 ^ 64 - 1)
      else (k, sign_extend r)

  unfoldable pub sys_forkn : Kernel Mem → ℕ → Outcome (Kernel Mem × ℕ)
  unfolding forkn_result
  sys_forkn k me = do
    n ← argint (proc_at k me) 0
    pids_addr ← argraw (proc_at k me) 1
    if int_lt n 1 || int_lt 16 n || pids_addr == 0
        then ok (k, 2 ^ 64 - 1)
        else forkn m trampoline forkret k me n >>= λ (k', r, pids).
            ok (forkn_result me pids_addr k' r pids)

  unfoldable pub sys_waitall : Kernel Mem → ℕ → Outcome (WaitallStep Mem)
  sys_waitall k me = do
    n_addr ← argraw (proc_at k me) 0
    statuses_addr ← argraw (proc_at k me) 1
    if n_addr == 0 || statuses_addr == 0
        then ok (returned k (int_neg 1))
        else waitall m trampoline forkret k me n_addr statuses_addr
