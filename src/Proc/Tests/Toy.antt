-- ===== src/Proc/Tests/Toy.antt =====
-- A machine that hands out numbered pages until it has none, and a table of five processes.
use operationg_systems.Prelude.{
  ℕ, zero, suc, ◌+◌, ◌*◌, ◌-◌, [], ◌∷◌, true, not, ◌==◌, Option, none, some, Outcome, ok, panic,
  replicate,
}
use operationg_systems.Proc.Types.{
  Proc, Trapframe, Kernel, null_proc, sleeping, running, zombie, proc_chan, lock_chan,
}
use operationg_systems.Proc.Machine.{Machine}

abbrev pub take_page : ℕ → Option (ℕ × ℕ)
take_page zero = none
take_page (suc n) = some (4096 * suc n, n)

abbrev pub toy : Machine
toy = record {
  Mem = ℕ;
  kalloc = take_page;
  kfree = λ pa s. ok (s + 1);
  uvmcreate = take_page;
  mappages = λ pagetable va size pa perm s. ok (true, s);
  uvmunmap = λ pagetable va npages do_free s. ok s;
  uvmfree = λ pagetable sz s. ok (s + 1);
  uvmcopy = λ old new sz s. ok (not (s == 0), s - 1);
  uvmalloc = λ pagetable oldsz newsz xperm s. ok (newsz, s);
  uvmdealloc = λ pagetable oldsz newsz s. ok (newsz, s);
  copyout = λ pagetable dstva bytes s. (not (dstva == 0), s);
  copyin = λ pagetable srcva len s. some (replicate len 0);
  filedup = λ f s. ok s;
  fileclose = λ f s. ok (s, lock_chan f ∷ []);
  idup = λ ip s. s;
  iput_op = λ ip s. ok (s, []);
}

abbrev pub frame : Trapframe
frame = record { page = 4096; regs = replicate 36 7 }

abbrev pub init_entry : Proc
init_entry = record null_proc {
  pid = 1;
  state = sleeping;
  chan = proc_chan 0;
  trapframe = some frame;
}

-- It waits for its children.
abbrev pub parent_entry : Proc
parent_entry = record null_proc {
  pid = 2;
  state = sleeping;
  chan = proc_chan 1;
  parent = some 0;
  trapframe = some frame;
}

abbrev pub runner_entry : Proc
runner_entry = record null_proc {
  pid = 3;
  state = running;
  parent = some 1;
  pagetable = 8192;
  sz = 12288;
  trapframe = some frame;
  ofile = 5 ∷ 6 ∷ replicate 14 0;
  cwd = 9;
}

abbrev pub zombie_entry : Proc
zombie_entry = record null_proc {
  pid = 4;
  state = zombie;
  parent = some 2;
  xstatus = 42;
  pagetable = 16384;
  trapframe = some frame;
}

-- Process 0 is initproc, 1 its child, 2 the child of 1, and 3 a zombie child of 2.
abbrev pub kernel : Kernel ℕ
kernel = record {
  procs =
      init_entry ∷ parent_entry ∷ runner_entry ∷ zombie_entry ∷ null_proc ∷ null_proc ∷ null_proc
      ∷ [];
  nextpid = 5;
  initproc = some 0;
  mem = 20;
}

abbrev pub result_or {ℓ} : {A : Type ℓ} → Outcome A → A → A
result_or (ok a) b = a
result_or panic b = b
