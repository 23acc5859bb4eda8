-- ===== src/Console/Tests.antt =====
-- A console whose counters are about to wrap, with h and i in the line.
use operationg_systems.Prelude.{
  ◌≡◌, ◌-◌, ◌^◌, refl, arith, [], ◌∷◌, true, false, not, ltb, replicate, set,
}
use operationg_systems.Console.{Cons, consoleintr, consoleread}
use operationg_systems.Console.Ring.{IsValid, ready}
use operationg_systems.Console.Edit.{Edited, consoleintr-edit}
use operationg_systems.Console.Read.{next_line, Reads, consoleread-next_line}

abbrev typing : Cons
typing = record {
  buf = set (set (replicate 128 0) 127 b'h') 0 b'i';
  r = 2 ^ 32 - 1;
  w = 2 ^ 32 - 1;
  e = 1;
}

typing-IsValid : IsValid typing
typing-IsValid = record {
  room = refl;
  few = omega arith;
  read_word = omega arith;
  write_word = omega arith;
  edit_word = omega arith;
  plain = (omega arith, (omega arith, tt));
}

consoleintr-edit_example : Edited b'\r' typing (consoleintr b'\r' typing)
consoleintr-edit_example = consoleintr-edit b'\r' typing (omega arith) typing-IsValid

-- The line that the return key passes on.
abbrev entered : Cons
entered = record typing { buf = set typing.buf 1 10; w = 2; e = 2 }

returned : consoleintr b'\r' typing ≡ (entered, 10 ∷ [], true)
unfolding consoleintr
returned = refl

entered-IsValid : IsValid entered
entered-IsValid = record {
  room = refl;
  few = omega arith;
  read_word = omega arith;
  write_word = omega arith;
  edit_word = omega arith;
  plain = tt;
}

consoleread-next_line_example :
    Reads false 10 [] entered
      (next_line (λ n. true) (not (ltb 10 10)) 10 (ready entered))
      (consoleread (λ n. true) false 10 10 [] entered)
consoleread-next_line_example =
    consoleread-next_line (λ n. true) false 10 10 [] entered (omega arith) entered-IsValid
