-- ===== src/Proc/Fork.antt =====
-- kernel/proc.c of Assignment1_2: fork and forkn.
pub mod Child
pub mod Forkn
use operationg_systems.Prelude.{
  ℕ, zero, suc, ◌+◌, ◌-◌, ◌^◌, List, [], ◌∷◌, ◌++◌, Bool, true, false, ◌==◌, if◌then◌else◌, ◌||◌,
  Option, none, some, Outcome, ok, panic, ◌>>=◌, ◌>>◌, set,
}
use operationg_systems.Str.{safestrcpy}
use operationg_systems.Proc.Types.{
  Proc, ProcState, runnable, Kernel, Trapframe, entry, proc_at, put_proc, with_mem, int_neg, int_lt,
  reg_a0,
}
use operationg_systems.Proc.Machine.{Machine}
use operationg_systems.Proc.Table.{kill}
use operationg_systems.Proc.Alloc.{allocproc, freeproc}

-- *(np->trapframe) = *(p->trapframe); np->trapframe->a0 = a0. A NULL pointer stops the kernel.
unfoldable pub copy_frame : Option Trapframe → Option Trapframe → ℕ → Outcome (Option Trapframe)
copy_frame (some t) (some u) a0 = ok (some (record u { regs = set t.regs reg_a0 a0 }))
copy_frame _ none a0 = panic
copy_frame none _ a0 = panic

-- The file pointers of the child: those of the parent that are not NULL, and its own.
unfoldable pub dup_table : List ℕ → List ℕ → List ℕ
dup_table [] cs = cs
dup_table (f ∷ fs) [] = []
dup_table (f ∷ fs) (c ∷ cs) = (if f == 0 then c else f) ∷ dup_table fs cs

module _ (m : Machine) (trampoline forkret : ℕ) where
  open m use {Mem, uvmcopy, filedup, idup}

  -- filedup of each open file of the parent.
  unfoldable pub dup_files : List ℕ → Mem → Outcome Mem
  dup_files [] s = ok s
  dup_files (f ∷ fs) s = (if f == 0 then ok s else filedup f s) >>= dup_files fs

  -- What fork and forkn both do from the copied memory on; `a0` is what the child sees.
  pub fill_child : Kernel Mem → ℕ → ℕ → ℕ → Outcome (Kernel Mem)
  unfolding dup_files copy_frame dup_table
  fill_child k me np a0 =
      let p = proc_at k me in
      let c = proc_at k np in
      do
        frame ← copy_frame p.trapframe c.trapframe a0
        s ← dup_files p.ofile k.mem
        ok (
            put_proc (with_mem k (idup p.cwd s)) np (record c {
              sz = p.sz;
              trapframe = frame;
              ofile = dup_table p.ofile c.ofile;
              cwd = p.cwd;
              name = safestrcpy c.name p.name 16;
              parent = some me;
              state = runnable;
            }))

  -- fork behind uvmcopy: the Bool tells whether memory could be copied.
  pub fork_copied : Kernel Mem → ℕ → ℕ → Bool → Outcome (Kernel Mem × ℕ)
  unfolding fill_child
  fork_copied k me np true = fill_child k me np 0 >>= λ k'. ok (k', (proc_at k np).pid)
  fork_copied k me np false = freeproc m trampoline forkret k np >>= λ k'. ok (k', int_neg 1)

  -- fork behind allocproc.
  pub fork_found : ℕ → Kernel Mem × Option ℕ → Outcome (Kernel Mem × ℕ)
  unfolding fork_copied
  fork_found me (k, none) = ok (k, int_neg 1)
  fork_found me (k, some np) = do
    (copied, s) ← uvmcopy (proc_at k me).pagetable (proc_at k np).pagetable (proc_at k me).sz k.mem
    fork_copied (with_mem k s) me np copied

  unfoldable pub fork : Kernel Mem → ℕ → Outcome (Kernel Mem × ℕ)
  unfolding fork_found
  fork k me = allocproc m trampoline forkret k >>= fork_found me

  -- for(j = 0; j < i; j++) kill(pids[j]);
  unfoldable pub kill_each : List ℕ → List Proc → List Proc
  kill_each [] ps = ps
  kill_each (pid ∷ pids) ps = kill_each pids (kill pid ps).0

  -- One round of forkn's loop behind uvmcopy: the pid, or none where forkn returns -1.
  pub forkn_copied : Kernel Mem → ℕ → ℕ → ℕ → Bool → Outcome (Kernel Mem × Option ℕ)
  unfolding fill_child
  forkn_copied k me np i true = fill_child k me np i >>= λ k'. ok (k', some (proc_at k np).pid)
  forkn_copied k me np i false = freeproc m trampoline forkret k np >>= λ k'. ok (k', none)

  -- One round behind allocproc. np->sz is set before uvmcopy.
  pub forkn_into : Kernel Mem → ℕ → ℕ → ℕ → Outcome (Kernel Mem × Option ℕ)
  unfolding forkn_copied
  forkn_into k me np i =
      let k1 = put_proc k np (record (proc_at k np) { sz = (proc_at k me).sz }) in
      do
        (copied, s) ←
            uvmcopy (proc_at k1 me).pagetable (proc_at k1 np).pagetable (proc_at k1 me).sz k1.mem
        forkn_copied (with_mem k1 s) me np i copied

  -- A round with what allocproc returned: where it found no entry, the children made so far are killed.
  pub forkn_round : ℕ → ℕ → List ℕ → Kernel Mem × Option ℕ → Outcome (Kernel Mem × Option ℕ)
  unfolding forkn_into kill_each
  forkn_round me i pids (k, none) = ok (record k { procs = kill_each pids k.procs }, none)
  forkn_round me i pids (k, some np) = forkn_into k me np i

  -- What follows a round: return -1, or the rest of the loop.
  abbrev pub forkn_next :
      Kernel Mem
      → List ℕ
      → (ℕ → Outcome (Kernel Mem × ℕ × List ℕ))
      → Option ℕ
      → Outcome (Kernel Mem × ℕ × List ℕ)
  forkn_next k pids rest none = ok (k, int_neg 1, pids)
  forkn_next k pids rest (some pid) = rest pid

  -- The loop of forkn: `left` rounds from round `i` on, `pids` being pids[0..i). The result is the
  -- kernel, the int and the array.
  unfoldable pub forkn_loop : ℕ → ℕ → ℕ → List ℕ → Kernel Mem → Outcome (Kernel Mem × ℕ × List ℕ)
  unfolding forkn_round
  forkn_loop me zero i pids k = ok (k, int_neg 2, pids)
  forkn_loop me (suc left) i pids k = do
    (k1, made) ← allocproc m trampoline forkret k >>= forkn_round me i pids
    forkn_next k1 pids (λ pid. forkn_loop me left (i + 1) (pids ++ pid ∷ []) k1) made

  unfoldable pub forkn : Kernel Mem → ℕ → ℕ → Outcome (Kernel Mem × ℕ × List ℕ)
  unfolding forkn_loop
  forkn k me n = if int_lt n 1 || int_lt 16 n then ok (k, int_neg 1, []) else forkn_loop me n 0 [] k
