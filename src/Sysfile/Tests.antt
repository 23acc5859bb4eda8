-- ===== src/Sysfile/Tests.antt =====
-- A process with one open file, and one that makes a pipe.
use operationg_systems.Prelude.{
  ℕ, ◌≡◌, ◌⊎◌, refl, arith, List, [], ◌∷◌, Option, none, some, true, false, set, replicate, Outcome,
  ok, panic,
}
use operationg_systems.File.{ftable, null_file, filealloc}
use operationg_systems.File.Counted.{ftable-IsCounted, taken_file-IsCounted}
use operationg_systems.Kalloc.{kalloc}
use operationg_systems.Pipe.{new_pipe}
use operationg_systems.Sysfile.{Fds, argfd, sys_pipe}
use operationg_systems.Sysfile.Descriptors.{
  IsOpen, FdCall, dup, close, call, calls, fd_calls_counted,
}

abbrev no_files : List (Option ℕ)
no_files = replicate 16 none

abbrev at_start : Fds
at_start = record {
  ofile = no_files;
  files = record {
    table = ftable;
    pipes = λ a. new_pipe;
    mem = record { freelist = 0x87fff000; word = λ a. 0 };
    released = [];
  };
}

abbrev one_open : Fds
one_open = record {
  ofile = set no_files 0 (some 0);
  files = record at_start.files { table = set ftable 0 (record null_file { ref = 1 }) };
}

abbrev ofile_of : Outcome (Option ℕ × Fds) → Option (Option ℕ × List (Option ℕ))
ofile_of panic = none
ofile_of (ok r) = some (r.0, r.1.ofile)

-- Whether or not the descriptors can be copied out.
pipe_open :
    ofile_of (sys_pipe 0x80020000 true at_start)
    ≡ some (some 0, set (set no_files 0 (some 0)) 1 (some 1))
unfolding sys_pipe kalloc
pipe_open = refl

pipe_undone : ofile_of (sys_pipe 0x80020000 false at_start) ≡ some (none, no_files)
unfolding sys_pipe kalloc
pipe_undone = refl

-- There is no descriptor 3, and none below 0.
bad_fds : (argfd 3 one_open ≡ none) × (argfd 0xffffffff one_open ≡ none)
unfolding argfd
bad_fds = (refl, refl)

one_open-IsOpen : IsOpen [] one_open
unfolding filealloc
one_open-IsOpen = record {
  size = refl;
  counts = taken_file-IsCounted ftable one_open.files.table [] 0 ftable-IsCounted refl;
}

fd_calls_counted_example :
    (s' : Fds) × (calls (dup 0 ∷ close 0 ∷ close 0 ∷ close 1 ∷ []) one_open ≡ ok s')
    × IsOpen [] s'
    × ((c : FdCall)
        → (v : Option ℕ) × (t : Fds) × (call c s' ≡ ok (v, t))
          × (((v ≡ none) × (t ≡ s')) ⊎ ((n : ℕ) × (v ≡ some n))))
fd_calls_counted_example =
    fd_calls_counted [] one_open (dup 0 ∷ close 0 ∷ close 0 ∷ close 1 ∷ []) (omega arith)
      one_open-IsOpen
