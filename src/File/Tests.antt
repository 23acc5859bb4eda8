-- ===== src/File/Tests.antt =====
-- A file that is opened, made the end of a pipe, and duplicated.
use operationg_systems.Prelude.{
  ◌≡◌, refl, ap, arith, List, [], ◌∷◌, ◌==◌, if◌then◌else◌, true, ok, set,
}
use operationg_systems.File.{
  File, file_at, filealloc, filedup, release_of, nothing, fileclose, ftable, null_file, pipe_end,
  Files, pipealloc,
}
use operationg_systems.Pipe.{new_pipe}
use operationg_systems.File.Undo.{FreeIsUntyped, Answers}
use operationg_systems.File.Pipealloc.{pipealloc_lem}
use operationg_systems.File.Counted.{count, zeroed}
use operationg_systems.File.Held.{Reach, boot, next, opened, filled, dupped, held_files_lem}

abbrev one_open : File
one_open = record null_file { ref = 1 }

abbrev one_pipe : File
one_pipe = pipe_end 0x87000000 true one_open

abbrev twice : List File
twice = set (set (set ftable 0 one_open) 0 one_pipe) 0 (record one_pipe { ref = 2 })

twice-Reach : Reach (twice, 0 ∷ 0 ∷ [])
unfolding filealloc filedup
twice-Reach =
    next (next (next boot (opened 0 refl)) (filled 0 one_pipe (omega arith) refl))
      (dupped 0 (omega arith) (omega arith) refl)

held_files_lem_example :
    ((file_at twice 0).ref ≡ count 0 (0 ∷ 0 ∷ []))
    × ((files' : List File) × (fileclose twice 0
          ≡ ok (
            files',
            if count 0 (0 ∷ 0 ∷ []) == 1
                then release_of (file_at twice 0) (file_at twice 0).type
                else nothing,
          )))
    × ((files' : List File) × (filedup twice 0 ≡ ok files'))
held_files_lem_example = held_files_lem twice (0 ∷ 0 ∷ []) 0 twice-Reach (omega arith)

-- A kernel with an empty table and one free page.
abbrev start : Files
start = record {
  table = ftable;
  pipes = λ a. new_pipe;
  mem = record { freelist = 0x87fff000; word = λ a. 0 };
  released = [];
}

ftable-FreeIsUntyped : FreeIsUntyped ftable
ftable-FreeIsUntyped f e = ap (λ x. x.type) (zeroed 100 f)

pipealloc_lem_example : Answers start (pipealloc 0x80020000 start)
pipealloc_lem_example = pipealloc_lem 0x80020000 start ftable-FreeIsUntyped
