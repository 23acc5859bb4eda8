-- ===== src/Console/Read.antt =====
-- consoleread of kernel/console.c on the queue of bytes that are ready.
use operationg_systems.Prelude.{
  ℕ, zero, suc, ◌+◌, ◌-◌, ◌%◌, ◌^◌, ◌≡◌, ◌<◌, ◌≤◌, inl, inr, refl, ap, sym, subst, ◌∙◌, List, [],
  ◌∷◌, ◌++◌, Bool, true, false, not, ◌==◌, ltb, if◌then◌else◌, Bool-cases, arith, length,
}
use mathlib.Core.List.{append-nil, append_assoc}
use operationg_systems.Console.{
  Cons, ReadStep, got, refused, asleep, first_byte, next_byte, put_back, consoleread,
}
use operationg_systems.Console.Ring.{span, waiting, ready, line, IsValid}
use operationg_systems.Console.Lines.{view}

-- What a read of n bytes takes off the queue: the bytes that it returns, the queue that it leaves, and whether
-- it is done. It takes a line with its newline; control-d ends it, and is taken only if it is the first; so
-- does a byte that cannot be copied out, which is lost.
abbrev pub next_line : (ℕ → Bool) → Bool → ℕ → List ℕ → List ℕ × List ℕ × Bool
next_line dst first zero q = ([], q, true)
next_line dst first (suc n) [] = ([], [], false)
next_line dst first (suc n) (c ∷ q) =
    let rest = next_line dst false n q in
    if c == 4
    then ([], if first then q else c ∷ q, true)
    else if not (dst (suc n))
    then ([], q, true)
    else if c == 10
    then (c ∷ [], q, true)
    else (c ∷ rest.0, rest.1, rest.2)

-- The step does what the queue says, and leaves the line that is edited.
abbrev pub Reads : Bool → ℕ → List ℕ → Cons → List ℕ × List ℕ × Bool → ReadStep → Type 0
Reads killed n out s r (got s' out') =
    (r.2 ≡ true) × IsValid s' × (view s' ≡ (r.1, line s)) × (out' ≡ out ++ r.0)
Reads killed n out s r (refused s') =
    (r.2 ≡ false) × (killed ≡ true) × IsValid s' × (view s' ≡ ([], line s))
Reads killed n out s r (asleep s' n' out') =
    (r.2 ≡ false)
    × (killed ≡ false)
    × IsValid s'
    × (view s' ≡ ([], line s))
    × (out' ≡ out ++ r.0)
    × (n' + length r.0 ≡ n)

ready_empty : (s : Cons) → IsValid s → s.r == s.w ≡ true → ready s ≡ []
ready_empty s v e = ap (span s.buf s.r) {x = waiting s} {y = 0} (ground (arith, e, v.read_word))

ready_first :
    (s : Cons) → IsValid s → s.r == s.w ≡ false → ready s ≡ first_byte s ∷ ready (next_byte s)
unfolding first_byte next_byte
ready_first s v e =
    ap (span s.buf s.r) {x = waiting s} {y = suc (waiting (next_byte s))}
      (ground (arith, e, v.read_word, v.write_word))

next_byte-IsValid : (s : Cons) → IsValid s → s.r == s.w ≡ false → IsValid (next_byte s)
unfolding next_byte
next_byte-IsValid s v e = record {
  room = v.room;
  few = ground (arith, e, v.few, v.read_word, v.write_word);
  read_word = omega arith;
  write_word = v.write_word;
  edit_word = v.edit_word;
  plain = v.plain;
}

put_back-next_byte : (s : Cons) → s.r < 2 ^ 32 → put_back (next_byte s) ≡ s
unfolding put_back next_byte
put_back-next_byte s h =
    ap (λ n. record s { r = n }) {x = ((s.r + 1) % 2 ^ 32 + 2 ^ 32 - 1) % 2 ^ 32} {y = s.r}
      (omega arith)

line-next_byte : (s : Cons) → line (next_byte s) ≡ line s
unfolding next_byte
line-next_byte s = refl

-- A byte that is taken stands in front of what the rest of the read takes.
taken :
    (killed : Bool) (n c : ℕ) (out : List ℕ) (s s1 : Cons) (r : List ℕ × List ℕ × Bool)
    (step : ReadStep)
    → line s1 ≡ line s
    → Reads killed n (out ++ c ∷ []) s1 r step
    → Reads killed (suc n) out s (c ∷ r.0, r.1, r.2) step
taken killed n c out s s1 r (got s' out') e h =
    (h.0, h.1, h.2 ∙ ap (λ l. (r.1, l)) e, h.3 ∙ append_assoc out (c ∷ []) r.0)
taken killed n c out s s1 r (refused s') e h = (h.0, h.1, h.2, h.3 ∙ ap (λ l. ([], l)) e)
taken killed n c out s s1 r (asleep s' n' out') e h = (
  h.0,
  h.1,
  h.2,
  h.3 ∙ ap (λ l. ([], l)) e,
  h.4 ∙ append_assoc out (c ∷ []) r.0,
  omega (arith, h.5),
)

-- An empty queue.
waits :
    (killed : Bool) (n : ℕ) (out : List ℕ) (s : Cons)
    → view s ≡ ([], line s)
    → IsValid s
    → Reads killed n out s ([], [], false) (if killed then refused s else asleep s n out)
waits true n out s e v = (refl, refl, v, e)
waits false n out s e v = (refl, refl, v, e, sym (append-nil out), omega arith)

-- A step of consoleread, from any round of its loop on, takes off the queue of bytes that are ready what the
-- definition above says, also where the counters wrap; it returns with these bytes behind those that it had,
-- or sleeps, or fails if the process is killed, with the queue empty. The line that is edited stays.
pub consoleread-next_line :
    (dst : ℕ → Bool) (killed : Bool) (target n : ℕ) (out : List ℕ) (s : Cons)
    → n ≤ target
    → IsValid s
    → Reads killed n out s
        (next_line dst (not (ltb n target)) n (ready s))
        (consoleread dst killed target n out s)
unfolding consoleread
consoleread-next_line dst killed target zero out s h v = (refl, v, refl, sym (append-nil out))
consoleread-next_line dst killed target (suc n) out s h v = elim (Bool-cases (s.r == s.w)) [
  | inl empty ↦
      subst
        (λ l.
          Reads killed (suc n) out s (next_line dst (not (ltb (suc n) target)) (suc n) l)
            (consoleread dst killed target (suc n) out s))
        (sym (ready_empty s v empty))
        (rw empty (waits killed (suc n) out s (ap (λ l. (l, line s)) (ready_empty s v empty)) v))
  | inr more ↦
      let c = first_byte s in
      let s1 = next_byte s in
      let v1 = next_byte-IsValid s v more in
      let below : ltb n target ≡ true = ground (arith, h) in
      let ih =
        subst
          (λ b.
            Reads killed n (out ++ c ∷ []) s1 (next_line dst (not b) n (ready s1))
              (consoleread dst killed target n (out ++ c ∷ []) s1))
          below (consoleread-next_line dst killed target n (out ++ c ∷ []) s1 (omega arith) v1) in
      subst
        (λ l.
          Reads killed (suc n) out s (next_line dst (not (ltb (suc n) target)) (suc n) l)
            (consoleread dst killed target (suc n) out s))
        (sym (ready_first s v more))
        (elim (Bool-cases (c == 4)) [
          | inl end ↦ elim (Bool-cases (ltb (suc n) target)) [
            | inl kept ↦ rw more (
                rw end (
                  rw kept (
                    refl,
                    subst IsValid (sym (put_back-next_byte s v.read_word)) v,
                    ap view (put_back-next_byte s v.read_word)
                        ∙ ap (λ l. (l, line s)) (ready_first s v more),
                    sym (append-nil out),
                  )))
            | inr first ↦ rw more (
                rw end (
                  rw first
                    (refl, v1, ap (λ l. (ready s1, l)) (line-next_byte s), sym (append-nil out))))
          ]
          | inr other ↦ elim (Bool-cases (dst (suc n))) [
            | inr lost ↦ rw more (
                rw other (
                  rw lost
                    (refl, v1, ap (λ l. (ready s1, l)) (line-next_byte s), sym (append-nil out))))
            | inl copied ↦ elim (Bool-cases (c == 10)) [
              | inl newline ↦ rw more (
                  rw other (
                    rw copied
                      (rw newline (refl, v1, ap (λ l. (ready s1, l)) (line-next_byte s), refl))))
              | inr plain ↦ rw more (
                  rw other (
                    rw copied (
                      rw plain (
                        taken killed n c out s s1 (next_line dst false n (ready s1))
                          (consoleread dst killed target n (out ++ c ∷ []) s1) (line-next_byte s)
                          ih))))
            ]
          ]
        ])
]
