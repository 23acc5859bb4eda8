-- ===== src/Uart.antt =====
-- kernel/uart.c of Assignment1_2: the ring of bytes to send, uartputc and uartstart. What the line status
-- register says is an argument, and the bytes written to THR are part of the result.
pub mod Order
mod Tests
use operationg_systems.Prelude.{
  ℕ, ◌+◌, ◌%◌, ◌^◌, List, [], ◌∷◌, ◌++◌, Bool, true, false, ◌||◌, not, ◌==◌, if◌then◌else◌, Option,
  none, some,
}

abbrev pub uart_tx_buf_size : ℕ
uart_tx_buf_size = 32

-- uart_tx_buf, uart_tx_w and uart_tx_r; the counters are uint64.
pub record Uart : Type 0 where
  pub buf : ℕ → ℕ
  pub w : ℕ
  pub r : ℕ

unfoldable pub tx_full : Uart → Bool
tx_full u = u.w == (u.r + uart_tx_buf_size) % 2 ^ 64

-- uart_tx_buf[uart_tx_w % UART_TX_BUF_SIZE] = c; uart_tx_w += 1; the char keeps the low 8 bits of the int c.
unfoldable pub tx_add : ℕ → Uart → Uart
tx_add c u =
    let slot = u.w % uart_tx_buf_size in
    record u { buf = λ i. if i == slot then c % 256 else u.buf i; w = (u.w + 1) % 2 ^ 64 }

-- uartstart: idle has the bit LSR_TX_IDLE of each read of the register, which stays unset behind them. Each byte
-- sent comes with a wakeup on &uart_tx_r.
unfoldable pub uartstart : List Bool → Uart → Uart × List ℕ
uartstart [] u = (u, [])
uartstart (ready ∷ idle) u =
    let rest = uartstart idle (record u { r = (u.r + 1) % 2 ^ 64 }) in
    if u.w == u.r || not ready then (u, []) else (rest.0, u.buf (u.r % uart_tx_buf_size) ∷ rest.1)

-- A step of uartputc where nothing has panicked: none where it sleeps.
unfoldable pub uartputc : List Bool → ℕ → Uart → Option (Uart × List ℕ)
unfolding tx_full tx_add uartstart
uartputc idle c u = if tx_full u then none else some (uartstart idle (tx_add c u))
