-- ===== src/Console.antt =====
-- kernel/console.c of Assignment1_2: the line editor of consoleintr, consoleread and consolewrite. A call
-- holds cons.lock but for the time that it sleeps. The bytes that go to the uart are part of the result;
-- what procdump prints at control-p is left out.
pub mod Ring
pub mod Lines
pub mod Edit
pub mod Read
mod Tests
use operationg_systems.Prelude.{
  ℕ, zero, suc, ◌+◌, ◌-◌, ◌%◌, ◌^◌, List, [], ◌∷◌, ◌++◌, Bool, true, false, not, ◌&&◌, ◌||◌, ◌==◌,
  ltb, if◌then◌else◌, Option, none, some, get_or, set,
}

abbrev pub input_buf_size : ℕ
input_buf_size = 128

abbrev pub backspace : ℕ
backspace = 0x100

-- C('P'), C('U'), C('H') and C('D')
abbrev pub ctrl_p : ℕ
ctrl_p = 16

abbrev pub ctrl_u : ℕ
ctrl_u = 21

abbrev pub ctrl_h : ℕ
ctrl_h = 8

abbrev pub ctrl_d : ℕ
ctrl_d = 4

-- cons; r, w and e are uint counters that wrap.
pub record Cons : Type 0 where
  pub buf : List ℕ
  pub r : ℕ
  pub w : ℕ
  pub e : ℕ

-- The bytes that consputc sends.
abbrev pub consputc : ℕ → List ℕ
consputc c = if c == backspace then 8 ∷ b' ' ∷ 8 ∷ [] else c ∷ []

-- cons.e - cons.w and cons.e - cons.r, as uints
abbrev pub edited : Cons → ℕ
edited s = (s.e + 2 ^ 32 - s.w) % 2 ^ 32

abbrev pub used : Cons → ℕ
used s = (s.e + 2 ^ 32 - s.r) % 2 ^ 32

-- cons.e--
unfoldable pub back_one : Cons → Cons
back_one s = record s { e = (s.e + 2 ^ 32 - 1) % 2 ^ 32 }

-- The loop at control-u, with a round for each byte of the line at most.
unfoldable pub kill_line : ℕ → Cons → Cons × List ℕ
unfolding back_one
kill_line zero s = (s, [])
kill_line (suc fuel) s =
    let rest = kill_line fuel (back_one s) in
    if s.e == s.w || get_or s.buf ((s.e + 2 ^ 32 - 1) % 2 ^ 32 % input_buf_size) 0 == b'\n'
    then (s, [])
    else (rest.0, consputc backspace ++ rest.1)

-- cons.buf[cons.e++ % INPUT_BUF_SIZE] = c
unfoldable pub store_byte : Cons → ℕ → Cons
store_byte s c = record s { buf = set s.buf (s.e % input_buf_size) c; e = (s.e + 1) % 2 ^ 32 }

-- The end of the default case: a line, the end of the file or a full buffer is passed on, with a wakeup.
unfoldable pub pass_on : ℕ → Cons → Cons × Bool
pass_on c s =
    if c == b'\n' || c == ctrl_d || used s == input_buf_size
    then (record s { w = s.e }, true)
    else (s, false)

-- The cases of consoleintr, each with the bytes echoed, and whether there is a wakeup on cons.r.
unfoldable pub erase_line : Cons → Cons × List ℕ × Bool
unfolding kill_line
erase_line s = let r = kill_line (edited s) s in (r.0, r.1, false)

unfoldable pub erase_byte : Cons → Cons × List ℕ × Bool
unfolding back_one
erase_byte s = if s.e == s.w then (s, [], false) else (back_one s, consputc backspace, false)

unfoldable pub add_byte : ℕ → Cons → Cons × List ℕ × Bool
unfolding store_byte pass_on
add_byte key s =
    let c = if key == b'\r' then b'\n' else key in
    let r = pass_on c (store_byte s c) in
    if key == 0 || not (ltb (used s) input_buf_size) then (s, [], false) else (r.0, consputc c, r.1)

unfoldable pub consoleintr : ℕ → Cons → Cons × List ℕ × Bool
unfolding erase_line erase_byte add_byte
consoleintr key s =
    if key == ctrl_p
    then (s, [], false)
    else if key == ctrl_u
    then erase_line s
    else if key == ctrl_h || key == 0x7f
    then erase_byte s
    else add_byte key s

-- How a step of consoleread ends: it returns with the bytes copied out, it returns -1, or it sleeps with n
-- bytes left.
pub data ReadStep : Type 0 where
  got : Cons → List ℕ → ReadStep
  refused : Cons → ReadStep
  asleep : Cons → ℕ → List ℕ → ReadStep

-- c = cons.buf[cons.r++ % INPUT_BUF_SIZE]
unfoldable pub first_byte : Cons → ℕ
first_byte s = get_or s.buf (s.r % input_buf_size) 0

unfoldable pub next_byte : Cons → Cons
next_byte s = record s { r = (s.r + 1) % 2 ^ 32 }

-- cons.r--
unfoldable pub put_back : Cons → Cons
put_back s = record s { r = (s.r + 2 ^ 32 - 1) % 2 ^ 32 }

-- The loop of consoleread with n = left; `dst n` tells whether either_copyout succeeds with n left.
unfoldable pub consoleread : (ℕ → Bool) → Bool → ℕ → ℕ → List ℕ → Cons → ReadStep
unfolding first_byte next_byte put_back
consoleread dst killed target zero out s = got s out
consoleread dst killed target (suc left) out s =
    let c = first_byte s in
    let s1 = next_byte s in
    let more = consoleread dst killed target left (out ++ c ∷ []) s1 in
    if s.r == s.w
    then if killed then refused s else asleep s (suc left) out
    else if c == ctrl_d
    then got (if ltb (suc left) target then put_back s1 else s1) out
    else if not (dst (suc left))
    then got s1 out
    else if c == b'\n'
    then got s1 (out ++ c ∷ [])
    else more

-- The loop of consolewrite from i on, with n - i = left: what it returns, and the bytes for uartputc.
unfoldable pub consolewrite : (ℕ → Option ℕ) → ℕ → ℕ → ℕ × List ℕ
consolewrite src i zero = (i, [])
consolewrite src i (suc left) = elim (src i) [
  | none ↦ (i, [])
  | some c ↦ let rest = consolewrite src (i + 1) left in (rest.0, c ∷ rest.1)
]
