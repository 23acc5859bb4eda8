-- ===== src/File.antt =====
-- kernel/file.c of Assignment1_2, the table of open files, and pipealloc of kernel/pipe.c. A file is its index
-- in the table. The lock of the table is left out: each function is one critical section, and what fileclose
-- does behind it, pipeclose or iput, is recorded in its result and not run.
pub mod Counted
pub mod Held
pub mod Undo
pub mod Pipealloc
mod Tests
use operationg_systems.Prelude.{
  ℕ, zero, suc, ◌+◌, ◌-◌, ◌%◌, ◌^◌, List, [], ◌∷◌, Bool, true, false, not, ◌||◌, ◌==◌, leb,
  if◌then◌else◌, Option, none, some, get_or, set, replicate, Outcome, ok, panic, ◌>>=◌,
}
use operationg_systems.Pipe.{Pipe, new_pipe}
use operationg_systems.Kalloc.{Kmem, kalloc, kfree}

abbrev pub nfile : ℕ
nfile = 100

pub data FileType : Type 0 where
  fd_none fd_pipe fd_inode fd_device : FileType

-- struct file; ref is an int, as its 32 bits.
pub record File : Type 0 where
  pub type : FileType
  pub ref : ℕ
  pub readable : Bool
  pub writable : Bool
  pub pipe : ℕ
  pub ip : ℕ
  pub off : ℕ
  pub major : ℕ

abbrev pub null_file : File
null_file = record {
  type = fd_none;
  ref = 0;
  readable = false;
  writable = false;
  pipe = 0;
  ip = 0;
  off = 0;
  major = 0;
}

abbrev pub file_at : List File → ℕ → File
file_at files f = get_or files f null_file

-- The loop of filealloc, from file f on.
unfoldable pub free_file : ℕ → List File → Option ℕ
free_file f [] = none
free_file f (x ∷ files) = let rest = free_file (f + 1) files in if x.ref == 0 then some f else rest

abbrev pub taken_file : List File → Option ℕ → Option ℕ × List File
taken_file files none = (none, files)
taken_file files (some f) = (some f, set files f (record (file_at files f) { ref = 1 }))

unfoldable pub filealloc : List File → Option ℕ × List File
unfolding free_file
filealloc files = taken_file files (free_file 0 files)

-- f->ref < 1, for an int
abbrev pub below_one : ℕ → Bool
below_one ref = ref == 0 || leb (2 ^ 31) ref

unfoldable pub filedup : List File → ℕ → Outcome (List File)
filedup files f =
    if below_one (file_at files f).ref
    then panic
    else ok (set files f (record (file_at files f) { ref = ((file_at files f).ref + 1) % 2 ^ 32 }))

-- What fileclose calls behind the lock: nothing, pipeclose, or iput in a transaction.
pub data Release : Type 0 where
  nothing : Release
  close_pipe : ℕ → Bool → Release
  put_inode : ℕ → Release

abbrev pub release_of : File → FileType → Release
release_of ff fd_none = nothing
release_of ff fd_pipe = close_pipe ff.pipe ff.writable
release_of ff fd_inode = put_inode ff.ip
release_of ff fd_device = put_inode ff.ip

-- fileclose behind its guard.
unfoldable pub drop_ref : List File → ℕ → List File × Release
drop_ref files f =
    let ff = file_at files f in
    if not (below_one (ff.ref - 1))
    then (set files f (record ff { ref = ff.ref - 1 }), nothing)
    else (set files f (record ff { ref = 0; type = fd_none }), release_of ff ff.type)

unfoldable pub fileclose : List File → ℕ → Outcome (List File × Release)
unfolding drop_ref
fileclose files f = if below_one (file_at files f).ref then panic else ok (drop_ref files f)

-- The table at boot, zeroed.
abbrev pub ftable : List File
ftable = replicate nfile null_file

-- The table, the pipes by the address of their page, the allocator, and what calls of fileclose have had
-- to release, the last first.
pub record Files : Type 0 where
  pub table : List File
  pub pipes : ℕ → Pipe
  pub mem : Kmem
  pub released : List Release

-- The end of a pipe.
abbrev pub pipe_end : ℕ → Bool → File → File
pipe_end pi writes f = record f {
  type = fd_pipe;
  readable = not writes;
  writable = writes;
  pipe = pi;
}

-- if(f) fileclose(f);
unfoldable pub close_made : Option ℕ → Files → Outcome Files
unfolding fileclose
close_made none s = ok s
close_made (some f) s = do
  r ← fileclose s.table f
  ok (record s { table = r.0; released = r.1 ∷ s.released })

-- What stands behind the label bad, which returns -1.
unfoldable pub bad : ℕ → ℕ → Option ℕ → Option ℕ → Files → Outcome (Option (ℕ × ℕ) × Files)
unfolding close_made
bad end pi f0 f1 s = do
  mem ← if pi == 0 then ok s.mem else kfree end s.mem pi
  s1 ← close_made f0 (record s { mem = mem })
  s2 ← close_made f1 s1
  ok (none, s2)

-- pipealloc with the page that kalloc returned, with the second file, and with the first.
unfoldable pub with_page : ℕ → ℕ → ℕ → ℕ → Files → Outcome (Option (ℕ × ℕ) × Files)
unfolding bad
with_page end f0 f1 pi s =
    if pi == 0
    then bad end 0 (some f0) (some f1) s
    else let table0 = set s.table f0 (pipe_end pi false (file_at s.table f0)) in
      ok (
        some (f0, f1),
        record s {
          table = set table0 f1 (pipe_end pi true (file_at table0 f1));
          pipes = λ a. if a == pi then new_pipe else s.pipes a;
        },
      )

unfoldable pub with_second : ℕ → ℕ → Option ℕ → Files → Outcome (Option (ℕ × ℕ) × Files)
unfolding bad with_page
with_second end f0 none s = bad end 0 (some f0) none s
with_second end f0 (some f1) s =
    let p = kalloc s.mem in with_page end f0 f1 p.0 (record s { mem = p.1 })

unfoldable pub with_first : ℕ → Option ℕ → Files → Outcome (Option (ℕ × ℕ) × Files)
unfolding bad filealloc with_second
with_first end none s = bad end 0 none none s
with_first end (some f0) s =
    let a = filealloc s.table in with_second end f0 a.0 (record s { table = a.1 })

-- The two files, or none for -1.
unfoldable pub pipealloc : ℕ → Files → Outcome (Option (ℕ × ℕ) × Files)
unfolding filealloc with_first
pipealloc end s = let a = filealloc s.table in with_first end a.0 (record s { table = a.1 })
