-- ===== src/Proc/Tests/Ends.antt =====
-- exit on the table of open files of File, of a process with one file.
use operationg_systems.Prelude.{
  ℕ, zero, suc, ◌≡◌, ◌⊎◌, ◌>>=◌, refl, ap, List, [], ◌∷◌, none, some, true, false, ok, panic,
  Outcome, set, replicate, arith,
}
use operationg_systems.File.{
  File, Files, Release, fileclose, filealloc, close_made, ftable, null_file,
}
use operationg_systems.File.Counted.{IsCounted, ftable-IsCounted, taken_file-IsCounted}
use operationg_systems.Pipe.{new_pipe}
use operationg_systems.Proc.Types.{Chan, Kernel, points_to}
use operationg_systems.Proc.Machine.{Machine}
use operationg_systems.Proc.Tests.Toy.{init_entry, runner_entry}
use operationg_systems.Proc.Exit.{exit, exit_num_text}
use operationg_systems.Proc.Exit.Returns.{FileLayer, exit_returns}

abbrev close_pointer : ℕ → Files → Outcome (Files × List Chan)
close_pointer zero s = panic
close_pointer (suc f) s = close_made (some f) s >>= λ s'. ok (s', [])

-- A machine with no memory to hand out.
abbrev with_files : Machine
with_files = record {
  Mem = Files;
  kalloc = λ s. none;
  kfree = λ pa s. ok s;
  uvmcreate = λ s. none;
  mappages = λ pagetable va size pa perm s. ok (false, s);
  uvmunmap = λ pagetable va npages do_free s. ok s;
  uvmfree = λ pagetable sz s. ok s;
  uvmcopy = λ old new sz s. ok (false, s);
  uvmalloc = λ pagetable oldsz newsz xperm s. ok (0, s);
  uvmdealloc = λ pagetable oldsz newsz s. ok (newsz, s);
  copyout = λ pagetable dstva bytes s. (false, s);
  copyin = λ pagetable srcva len s. none;
  filedup = λ f s. ok s;
  fileclose = close_pointer;
  idup = λ ip s. s;
  iput_op = λ ip s. ok (s, []);
}

closes :
    (f : ℕ) (s : Files) (t : List File) (r : Release)
    → fileclose s.table f ≡ ok (t, r)
    → close_pointer (suc f) s ≡ ok (record s { table = t; released = r ∷ s.released }, [])
unfolding close_made
closes f s t r e =
    ap
      (λ o. o >>= (λ x. ok (record s { table = x.0; released = x.1 ∷ s.released })) >>= λ s'.
        ok (s', []))
      e

abbrev with_files_layer : FileLayer with_files
with_files_layer = record {
  table = λ s. s.table;
  Sound = λ ip s. Unit {0};
  fileclose_lem = λ ip f s t r sound e.
      ((record s { table = t; released = r ∷ s.released }, []), closes f s t r e, refl, tt);
  iput_lem = λ ip s sound. ((s, []), refl, refl);
}

abbrev one_file : Files
one_file = record {
  table = set ftable 0 (record null_file { ref = 1 });
  pipes = λ a. new_pipe;
  mem = record { freelist = 0; word = λ a. 0 };
  released = [];
}

-- Process 1 has file 0 at descriptor 0.
abbrev two_procs : Kernel Files
two_procs = record {
  procs = init_entry ∷ record runner_entry { ofile = 1 ∷ replicate 15 0 } ∷ [];
  nextpid = 5;
  initproc = some 0;
  mem = one_file;
}

one_file-IsCounted : IsCounted one_file.table (0 ∷ [])
unfolding filealloc
one_file-IsCounted = taken_file-IsCounted ftable one_file.table [] 0 ftable-IsCounted refl

exit_returns_example :
    ((points_to (some 0) 1 ≡ true) × (exit with_files two_procs 1 exit_num_text ≡ panic))
    ⊎ ((points_to (some 0) 1 ≡ false)
        × ((k' : Kernel Files) × (exit with_files two_procs 1 exit_num_text ≡ ok k')
            × IsCounted k'.mem.table []))
exit_returns_example =
    exit_returns with_files with_files_layer two_procs 1 exit_num_text [] (omega arith) tt
      one_file-IsCounted
