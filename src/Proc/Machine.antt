-- ===== src/Proc/Machine.antt =====
-- What proc.c calls in the kernel's other files: kalloc.c, vm.c, file.c, fs.c and log.c. The functions
-- of proc.c take these as a parameter, and so hold whatever the files below them do.
use operationg_systems.Prelude.{ℕ, Bool, List, Option, Outcome}
use operationg_systems.Proc.Types.{Chan}

-- `Mem` is the state that those files own: pages, page tables, open files, inodes, the log.
pub record Machine : Type 1 where
  pub Mem : Type 0
  -- kalloc.c
  pub kalloc : Mem → Option (ℕ × Mem)
  pub kfree : ℕ → Mem → Outcome Mem
  -- vm.c; a Bool is true where the C function returns 0
  pub uvmcreate : Mem → Option (ℕ × Mem)
  pub mappages : (pagetable va size pa perm : ℕ) → Mem → Outcome (Bool × Mem)
  pub uvmunmap : (pagetable va npages do_free : ℕ) → Mem → Outcome Mem
  pub uvmfree : (pagetable sz : ℕ) → Mem → Outcome Mem
  pub uvmcopy : (old new sz : ℕ) → Mem → Outcome (Bool × Mem)
  pub uvmalloc : (pagetable oldsz newsz xperm : ℕ) → Mem → Outcome (ℕ × Mem)
  pub uvmdealloc : (pagetable oldsz newsz : ℕ) → Mem → Outcome (ℕ × Mem)
  pub copyout : (pagetable dstva : ℕ) → List ℕ → Mem → Bool × Mem
  pub copyin : (pagetable srcva len : ℕ) → Mem → Option (List ℕ)
  -- file.c; the channels are those that the call wakes
  pub filedup : ℕ → Mem → Outcome Mem
  pub fileclose : ℕ → Mem → Outcome (Mem × List Chan)
  -- fs.c, and begin_op(); iput(ip); end_op();
  pub idup : ℕ → Mem → Mem
  pub iput_op : ℕ → Mem → Outcome (Mem × List Chan)
