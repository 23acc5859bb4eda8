-- ===== src/Sysfile.antt =====
-- The calls of kernel/sysfile.c of Assignment1_2 on the descriptors of a process: argfd, fdalloc, sys_dup,
-- sys_close and sys_pipe, on the table of File. An argument fd is an int, as its 32 bits, and -1 is none.
pub mod Descriptors
mod Tests
use operationg_systems.Prelude.{
  ℕ, zero, suc, ◌+◌, ◌^◌, List, [], ◌∷◌, Bool, true, false, not, ◌||◌, leb, if◌then◌else◌, Option,
  none, some, get_or, set, Outcome, ok, panic, ◌>>=◌,
}
use operationg_systems.Proc.Types.{nofile}
use operationg_systems.File.{Files, filedup, close_made, pipealloc}

-- p->ofile, with none for 0, and the state that file.c keeps.
pub record Fds : Type 0 where
  pub ofile : List (Option ℕ)
  pub files : Files

abbrev pub opened_at : ℕ → Option ℕ → Option (ℕ × ℕ)
opened_at fd none = none
opened_at fd (some f) = some (fd, f)

unfoldable pub argfd : ℕ → Fds → Option (ℕ × ℕ)
argfd fd s =
    let found = opened_at fd (get_or s.ofile fd none) in
    if leb (2 ^ 31) fd || leb nofile fd then none else found

-- The loop of fdalloc, from fd on.
unfoldable pub free_fd : ℕ → List (Option ℕ) → Option ℕ
free_fd fd [] = none
free_fd fd (none ∷ ofile) = some fd
free_fd fd (some f ∷ ofile) = free_fd (fd + 1) ofile

abbrev pub put_fd : ℕ → Option ℕ → List (Option ℕ) → Option ℕ × List (Option ℕ)
put_fd f none ofile = (none, ofile)
put_fd f (some fd) ofile = (some fd, set ofile fd (some f))

unfoldable pub fdalloc : ℕ → List (Option ℕ) → Option ℕ × List (Option ℕ)
unfolding free_fd
fdalloc f ofile = put_fd f (free_fd 0 ofile) ofile

-- sys_dup with what fdalloc returned, and with what argfd did.
unfoldable pub dup_at : ℕ → Option ℕ × List (Option ℕ) → Fds → Outcome (Option ℕ × Fds)
dup_at f (none, ofile) s = ok (none, s)
dup_at f (some fd, ofile) s = do
  table ← filedup s.files.table f
  ok (some fd, record { ofile = ofile; files = record s.files { table = table } })

unfoldable pub dup_found : Option (ℕ × ℕ) → Fds → Outcome (Option ℕ × Fds)
unfolding fdalloc dup_at
dup_found none s = ok (none, s)
dup_found (some (fd, f)) s = dup_at f (fdalloc f s.ofile) s

unfoldable pub sys_dup : ℕ → Fds → Outcome (Option ℕ × Fds)
unfolding argfd dup_found
sys_dup fd s = dup_found (argfd fd s) s

unfoldable pub close_found : Option (ℕ × ℕ) → Fds → Outcome (Option ℕ × Fds)
unfolding close_made
close_found none s = ok (none, s)
close_found (some (fd, f)) s = do
  files ← close_made (some f) s.files
  ok (some 0, record { ofile = set s.ofile fd none; files = files })

unfoldable pub sys_close : ℕ → Fds → Outcome (Option ℕ × Fds)
unfolding argfd close_found
sys_close fd s = close_found (argfd fd s) s

-- The two calls of fileclose where sys_pipe gives up, behind the resets of the descriptors.
unfoldable pub close_both : ℕ → ℕ → List (Option ℕ) → Files → Outcome (Option ℕ × Fds)
unfolding close_made
close_both rf wf ofile files = do
  one ← close_made (some rf) files
  two ← close_made (some wf) one
  ok (none, record { ofile = ofile; files = two })

-- sys_pipe with what the second fdalloc returned, with what the first did, and with the two files; `copied` tells
-- whether both calls of copyout succeed.
unfoldable pub pipe_second :
    Bool → ℕ → ℕ → ℕ → Option ℕ × List (Option ℕ) → Files → Outcome (Option ℕ × Fds)
unfolding close_both
pipe_second copied rf wf fd0 (none, ofile) files = close_both rf wf (set ofile fd0 none) files
pipe_second copied rf wf fd0 (some fd1, ofile) files =
    let undone = close_both rf wf (set (set ofile fd0 none) fd1 none) files in
    if copied then ok (some 0, record { ofile = ofile; files = files }) else undone

unfoldable pub pipe_first :
    Bool → ℕ → ℕ → Option ℕ × List (Option ℕ) → Files → Outcome (Option ℕ × Fds)
unfolding fdalloc pipe_second
pipe_first copied rf wf (none, ofile) files = close_both rf wf ofile files
pipe_first copied rf wf (some fd0, ofile) files =
    pipe_second copied rf wf fd0 (fdalloc wf ofile) files

unfoldable pub pipe_made :
    Bool → List (Option ℕ) → Option (ℕ × ℕ) × Files → Outcome (Option ℕ × Fds)
unfolding fdalloc pipe_first
pipe_made copied ofile (none, files) = ok (none, record { ofile = ofile; files = files })
pipe_made copied ofile (some (rf, wf), files) = pipe_first copied rf wf (fdalloc rf ofile) files

unfoldable pub sys_pipe : ℕ → Bool → Fds → Outcome (Option ℕ × Fds)
unfolding pipealloc pipe_made
sys_pipe end copied s = pipealloc end s.files >>= λ a. pipe_made copied s.ofile a
