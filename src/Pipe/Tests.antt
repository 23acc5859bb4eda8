-- ===== src/Pipe/Tests.antt =====
-- The theorems on kernel/pipe.c at the pipe that pipealloc makes.
use operationg_systems.Prelude.{ℕ, ◌+◌, true, false, Option, some, refl, arith}
use operationg_systems.Pipe.{new_pipe, put_byte, pipewrite, piperead}
use operationg_systems.Pipe.Queue.{IsValid, put_byte-IsValid}
use operationg_systems.Pipe.Write.{WriteResult, pipewrite_lem}
use operationg_systems.Pipe.Read.{ReadResult, piperead_lem}

new_pipe-IsValid : IsValid new_pipe
unfolding new_pipe
new_pipe-IsValid = record {
  room = refl;
  few = omega arith;
  read_word = omega arith;
  write_word = omega arith;
}

abbrev source : ℕ → Option ℕ
source i = some (i + 65)

pipewrite_lem_example :
    WriteResult source (λ _. false) 3 0 new_pipe (pipewrite source (λ _. false) 3 0 new_pipe)
pipewrite_lem_example = pipewrite_lem source (λ _. false) 3 0 new_pipe new_pipe-IsValid

piperead_lem_example :
    ReadResult false 3 (put_byte new_pipe 65) (piperead (λ _. true) false 3 (put_byte new_pipe 65))
unfolding new_pipe
piperead_lem_example =
    piperead_lem false 3 (put_byte new_pipe 65)
      (put_byte-IsValid new_pipe 65 new_pipe-IsValid (omega arith))
