-- ===== src/Uart/Order.antt =====
-- The ring of kernel/uart.c as a queue: bytes are sent in the order in which they were given.
use operationg_systems.Prelude.{
  subst, ℕ, zero, suc, ◌+◌, ◌-◌, ◌%◌, ◌^◌, ◌≡◌, ◌≢◌, ◌<◌, ◌≤◌, refl, ap, sym, ◌∙◌, inl, inr, List,
  [], ◌∷◌, ◌++◌, Bool, true, false, ◌||◌, not, ◌==◌, if◌then◌else◌, Bool-cases, Option, none, some,
  arith,
}
use mathlib.Core.List.{append_assoc, append-nil}
use operationg_systems.Uart.{Uart, tx_full, tx_add, uartstart, uartputc}

-- n bytes of the ring from r on, and those that wait.
abbrev pub span : (ℕ → ℕ) → ℕ → ℕ → List ℕ
span buf r zero = []
span buf r (suc n) = buf (r % 32) ∷ span buf (r + 1) n

abbrev pub waiting : Uart → ℕ
waiting u = (u.w + 2 ^ 64 - u.r) % 2 ^ 64

abbrev pub queue : Uart → List ℕ
queue u = span u.buf u.r (waiting u)

pub record IsValid (u : Uart) : Type 0 where
  pub few : waiting u ≤ 32
  pub write_word : u.w < 2 ^ 64
  pub read_word : u.r < 2 ^ 64

span_same : (buf : ℕ → ℕ) (r r' n : ℕ) → r % 32 ≡ r' % 32 → span buf r n ≡ span buf r' n
span_same buf r r' zero e = refl
span_same buf r r' (suc n) e =
    ap (λ i. buf i ∷ span buf (r + 1) n) e
    ∙ ap (λ l. buf (r' % 32) ∷ l) (span_same buf (r + 1) (r' + 1) n (omega (arith, e)))

span_last : (buf : ℕ → ℕ) (r n : ℕ) → span buf r (suc n) ≡ span buf r n ++ buf ((r + n) % 32) ∷ []
span_last buf r zero = ap (λ i. buf (i % 32) ∷ []) (omega arith)
span_last buf r (suc n) =
    ap (λ l. buf (r % 32) ∷ l)
      (span_last buf (r + 1) n ∙ ap (λ i. span buf (r + 1) n ++ buf (i % 32) ∷ []) (omega arith))

span_else :
    (buf : ℕ → ℕ) (p c r n : ℕ)
    → ((j : ℕ) → j < n → (r + j) % 32 ≢ p)
    → span (λ i. if i == p then c else buf i) r n ≡ span buf r n
span_else buf p c r zero away = refl
span_else buf p c r (suc n) away =
    let head : r % 32 ≢ p = λ e. away 0 (omega arith) (omega (arith, e)) in
    let test : r % 32 == p ≡ false = ground (arith, head) in
    let rest =
      span_else buf p c (r + 1) n (λ j h e. away (suc j) (omega (arith, h)) (omega (arith, e))) in
    rw test (ap (λ l. buf (r % 32) ∷ l) rest)

room_left : (u : Uart) → IsValid u → tx_full u ≡ false → waiting u < 32
unfolding tx_full
room_left u v h =
    let ne : u.w ≢ (u.r + 32) % 2 ^ 64 = ground (arith, h) in
    omega (arith, ne, v.few, v.write_word, v.read_word)

waiting-tx_add :
    (c : ℕ) (u : Uart) → IsValid u → waiting u < 32 → waiting (tx_add c u) ≡ suc (waiting u)
unfolding tx_add
waiting-tx_add c u v h = omega (arith, h, v.write_word, v.read_word)

tx_add-queue :
    (c : ℕ) (u : Uart) → IsValid u → waiting u < 32 → queue (tx_add c u) ≡ queue u ++ (c % 256) ∷ []
unfolding tx_add
tx_add-queue c u v h =
    let n = waiting u in
    let slot : (u.r + n) % 32 ≡ u.w % 32 = omega (arith, h, v.write_word, v.read_word) in
    let buf : ℕ → ℕ = λ i. if i == u.w % 32 then c % 256 else u.buf i in
    let here : (u.r + n) % 32 == u.w % 32 ≡ true = ground (arith, slot) in
    ap (λ k. span buf u.r k) (waiting-tx_add c u v h)
    ∙ span_last buf u.r n
    ∙ ap (λ x. span buf u.r n ++ (if x then c % 256 else u.buf ((u.r + n) % 32)) ∷ []) here
    ∙ ap (λ l. l ++ (c % 256) ∷ [])
        (span_else u.buf (u.w % 32) (c % 256) u.r n
          (λ j low e. absurd (omega (arith, low, h, e, v.write_word, v.read_word))))

tx_add-IsValid : (c : ℕ) (u : Uart) → IsValid u → waiting u < 32 → IsValid (tx_add c u)
unfolding tx_add
tx_add-IsValid c u v h = record {
  few = omega (arith, waiting-tx_add c u v h, h);
  write_word = omega arith;
  read_word = v.read_word;
}

-- The state with the first byte sent.
abbrev sent_one : Uart → Uart
sent_one u = record u { r = (u.r + 1) % 2 ^ 64 }

waiting-sent_one : (u : Uart) → IsValid u → u.w ≢ u.r → waiting u ≡ suc (waiting (sent_one u))
waiting-sent_one u v ne = omega (arith, ne, v.write_word, v.read_word)

queue-sent_one :
    (u : Uart) → IsValid u → u.w ≢ u.r → queue u ≡ u.buf (u.r % 32) ∷ queue (sent_one u)
queue-sent_one u v ne =
    ap (λ n. span u.buf u.r n) (waiting-sent_one u v ne)
    ∙ ap (λ l. u.buf (u.r % 32) ∷ l)
        (span_same u.buf (u.r + 1) ((u.r + 1) % 2 ^ 64) (waiting (sent_one u)) (omega arith))

-- uartstart sends from the front of the queue.
uartstart-queue :
    (idle : List Bool) (u : Uart)
    → IsValid u
    → (queue u ≡ (uartstart idle u).1 ++ queue (uartstart idle u).0) × IsValid (uartstart idle u).0
unfolding uartstart
uartstart-queue [] u v = (refl, v)
uartstart-queue (ready ∷ idle) u v = elim (Bool-cases (u.w == u.r || not ready)) [
  | inl stop ↦ rw stop (refl, v)
  | inr go ↦
      let ne : u.w ≢ u.r = ground (arith, go) in
      let fewer = waiting-sent_one u v ne in
      let rest = uartstart-queue idle (sent_one u) (record {
        few = omega (arith, fewer, v.few);
        write_word = v.write_word;
        read_word = omega arith;
      }) in
      rw go (queue-sent_one u v ne ∙ ap (λ l. u.buf (u.r % 32) ∷ l) rest.0, rest.1)
]

-- What happens to the driver: a byte is given to uartputc, or an interrupt comes.
pub data Event : Type 0 where
  given : List Bool → ℕ → Event
  interrupt : List Bool → Event

-- The state behind some events, with the bytes that uartputc took, the low 8 bits of its arguments, and those
-- that were sent.
abbrev pub put_or_wait : Uart → ℕ → Option (Uart × List ℕ) → Uart × List ℕ × List ℕ
put_or_wait u c none = (u, [], [])
put_or_wait u c (some r) = (r.0, (c % 256) ∷ [], r.1)

abbrev pub handled : Event → Uart → Uart × List ℕ × List ℕ
handled (given idle c) u = put_or_wait u c (uartputc idle c u)
handled (interrupt idle) u = let r = uartstart idle u in (r.0, [], r.1)

abbrev pub run : List Event → Uart → Uart × List ℕ × List ℕ
run [] u = (u, [], [])
run (e ∷ es) u =
    let one = handled e u in let rest = run es one.0 in (rest.0, one.1 ++ rest.1, one.2 ++ rest.2)

abbrev Ordered : Uart → Uart × List ℕ × List ℕ → Type 0
Ordered u (u', took, sent) = (queue u ++ took ≡ sent ++ queue u') × IsValid u'

handled-Ordered : (e : Event) (u : Uart) → IsValid u → Ordered u (handled e u)
unfolding uartputc
handled-Ordered (interrupt idle) u v =
    let s = uartstart-queue idle u v in (append-nil (queue u) ∙ s.0, s.1)
handled-Ordered (given idle c) u v = elim (Bool-cases (tx_full u)) [
  | inl full ↦
      let e : uartputc idle c u ≡ none = rw full refl in
      subst (λ o. Ordered u (put_or_wait u c o)) (sym e) (append-nil (queue u), v)
  | inr room ↦
      let left = room_left u v room in
      let s = uartstart-queue idle (tx_add c u) (tx_add-IsValid c u v left) in
      let e : uartputc idle c u ≡ some (uartstart idle (tx_add c u)) = rw room refl in
      subst (λ o. Ordered u (put_or_wait u c o)) (sym e) (sym (tx_add-queue c u v left) ∙ s.0, s.1)
]

-- Over any sequence of bytes given to uartputc and of interrupts, whenever the uart is ready, the bytes that
-- waited and those that were taken are, in order, the bytes sent and those that wait then; no more than the
-- ring holds wait, also when the counters wrap.
pub bytes_in_order :
    (es : List Event) (u : Uart)
    → IsValid u
    → (queue u ++ (run es u).1 ≡ (run es u).2 ++ queue (run es u).0) × IsValid (run es u).0
bytes_in_order [] u v = (append-nil (queue u), v)
bytes_in_order (e ∷ es) u v =
    let one = handled-Ordered e u v in
    let h = handled e u in
    let rest = bytes_in_order es h.0 one.1 in
    (
      sym (append_assoc (queue u) h.1 (run es h.0).1)
          ∙ ap (λ l. l ++ (run es h.0).1) one.0
          ∙ append_assoc h.2 (queue h.0) (run es h.0).1
          ∙ ap (λ l. h.2 ++ l) rest.0
          ∙ sym (append_assoc h.2 (run es h.0).2 (queue (run es h.0).0)),
      rest.1,
    )
