-- ===== src/Uart/Tests.antt =====
-- Three bytes for a uart that becomes ready in between, with counters that wrap.
use operationg_systems.Prelude.{◌^◌, ◌-◌, ◌≡◌, refl, arith, List, [], ◌∷◌, ◌++◌, true}
use operationg_systems.Uart.{Uart, uartputc}
use operationg_systems.Uart.Order.{Event, given, interrupt, run, queue, IsValid, bytes_in_order}

abbrev empty : Uart
empty = record { buf = λ i. 0; w = 2 ^ 64 - 1; r = 2 ^ 64 - 1 }

abbrev events : List Event
events =
    given [] b'a'
    ∷ given (true ∷ []) b'b'
    ∷ interrupt (true ∷ true ∷ true ∷ [])
    ∷ given [] b'c'
    ∷ []

all_in_order : (run events empty).2 ≡ b'a' ∷ b'b' ∷ []
unfolding uartputc
all_in_order = refl

last_waits : queue (run events empty).0 ≡ b'c' ∷ []
unfolding uartputc
last_waits = refl

bytes_in_order_example :
    (queue empty ++ (run events empty).1 ≡ (run events empty).2 ++ queue (run events empty).0)
    × IsValid (run events empty).0
bytes_in_order_example =
    bytes_in_order events empty
      (record { few = omega arith; write_word = omega arith; read_word = omega arith })
