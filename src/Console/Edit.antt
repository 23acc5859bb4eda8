-- ===== src/Console/Edit.antt =====
-- consoleintr of kernel/console.c as a line editor.
use operationg_systems.Prelude.{
  ℕ, zero, suc, ◌+◌, ◌-◌, ◌%◌, ◌^◌, ◌≡◌, ◌<◌, inl, inr, refl, ap, sym, subst, ◌∙◌, List, [], ◌∷◌,
  ◌++◌, Bool, true, false, not, ◌||◌, ◌==◌, ==_iff, ==_ne, ltb, if◌then◌else◌, Bool-cases, arith,
  length, get_or,
}
use operationg_systems.Console.{
  Cons, consputc, edited, used, back_one, kill_line, store_byte, pass_on, erase_line, erase_byte,
  add_byte, consoleintr,
}
use operationg_systems.Console.Ring.{span, waiting, ready, line, NoNewline, IsValid, length-span}
use operationg_systems.Console.Lines.{
  drop_last, append-NoNewline, view, line-back_one, back_one-IsValid, view-back_one,
  edited-back_one, ready-back_one, used-sum, ready-store_byte, line-store_byte, ready_passed,
  used-store_byte, passed-IsValid, stored-IsValid, line_passed,
}

-- What a key does to the bytes that are ready and to the line: a newline, control-d and the 128th byte pass
-- the line on.
abbrev pub accept : ℕ → List ℕ → List ℕ → List ℕ × List ℕ
accept c done l =
    if c == 10 || c == 4 || length done + length l + 1 == 128
    then (done ++ (l ++ c ∷ []), [])
    else (done, l ++ c ∷ [])

abbrev pub edit : ℕ → List ℕ × List ℕ → List ℕ × List ℕ
edit key (done, l) =
    if key == 16
    then (done, l)
    else if key == 21
    then (done, [])
    else if key == 8 || key == 127
    then (done, drop_last l)
    else if key == 0 || not (ltb (length done + length l) 128)
    then (done, l)
    else accept (if key == 13 then 10 else key) done l

-- n bytes rubbed out on the screen
abbrev pub rubouts : ℕ → List ℕ
rubouts zero = []
rubouts (suc n) = 8 ∷ 32 ∷ 8 ∷ rubouts n

-- No byte of the line is a newline, so control-u takes all of it.
kill_line-view :
    (n : ℕ) (s : Cons)
    → IsValid s
    → edited s ≡ n
    → IsValid (kill_line n s).0
      × (view (kill_line n s).0 ≡ (ready s, []))
      × ((kill_line n s).1 ≡ rubouts n)
unfolding kill_line
kill_line-view zero s v e = (v, ap (λ m. (ready s, span s.buf s.w m)) e, refl)
kill_line-view (suc n) s v e =
    let last = get_or s.buf ((s.e + 2 ^ 32 - 1) % 2 ^ 32 % 128) 0 in
    let other =
      (append-NoNewline (line (back_one s)) last
        (subst NoNewline (line-back_one s v (omega arith)) v.plain)).1 in
    let more : (s.e == s.w || last == 10) ≡ false = ground (arith, e, other, v.write_word) in
    let rest =
      kill_line-view n (back_one s) (back_one-IsValid s v (omega arith))
        (edited-back_one s n v e) in
    rw more (rest.0, rest.1 ∙ ap (λ q. (q, [])) (ready-back_one s), ap (λ l. 8 ∷ 32 ∷ 8 ∷ l) rest.2)

-- Whether the line is passed on, as the editor tells.
abbrev pub ends : ℕ → List ℕ → List ℕ → Bool
ends c done l = c == 10 || c == 4 || length done + length l + 1 == 128

passed_on :
    (s : Cons) (c : ℕ)
    → IsValid s
    → used s < 128
    → IsValid (pass_on c (store_byte s c)).0
      × (view (pass_on c (store_byte s c)).0 ≡ accept c (ready s) (line s))
      × ((pass_on c (store_byte s c)).1 ≡ ends c (ready s) (line s))
unfolding pass_on
passed_on s c v h =
    let test : (c == 10 || c == 4 || used (store_byte s c) == 128) ≡ ends c (ready s) (line s) =
      ap (λ n. c == 10 || c == 4 || n == 128) (used-store_byte s c v h) in
    elim (Bool-cases (ends c (ready s) (line s))) [
      | inl whole ↦
          rw (test, whole)
            (
              passed-IsValid s c v h,
              ap (λ l. (ready (record (store_byte s c) { w = (store_byte s c).e }), l))
                    (line_passed (store_byte s c))
                  ∙ ap (λ l. (l, [])) (ready_passed s c v h).1,
              refl,
            )
      | inr more ↦
          rw (test, more)
            (
              stored-IsValid s c v h (ground (arith, more)),
              ap (λ l. (l, line (store_byte s c))) (ready-store_byte s c v h)
                  ∙ ap (λ l. (ready s, l)) (line-store_byte s c v h),
              refl,
            )
    ]

-- What a key shows on the screen.
abbrev pub shown : ℕ → List ℕ × List ℕ → List ℕ
shown key (done, l) =
    if key == 16
    then []
    else if key == 21
    then rubouts (length l)
    else if key == 8 || key == 127
    then (if length l == 0 then [] else rubouts 1)
    else if key == 0 || not (ltb (length done + length l) 128)
    then []
    else (if key == 13 then 10 else key) ∷ []

-- Whether it wakes a reader.
abbrev pub wakes : ℕ → List ℕ × List ℕ → Bool
wakes key (done, l) =
    if key == 16
    then false
    else if key == 21
    then false
    else if key == 8 || key == 127
    then false
    else if key == 0 || not (ltb (length done + length l) 128)
    then false
    else ends (if key == 13 then 10 else key) done l

-- The new state is valid, and the editor's; the echo and the wakeup are the editor's.
abbrev pub Edited : ℕ → Cons → Cons × List ℕ × Bool → Type 0
Edited key s r =
    IsValid r.0
    × (view r.0 ≡ edit key (view s))
    × (r.1 ≡ shown key (view s))
    × (r.2 ≡ wakes key (view s))

room-test : (s : Cons) → IsValid s → ltb (used s) 128 ≡ ltb (length (ready s) + length (line s)) 128
room-test s v =
    ap (λ n. ltb n 128) {x = used s} {y = length (ready s) + length (line s)}
      (omega
        (arith, used-sum s v, length-span s.buf s.r (waiting s), length-span s.buf s.w (edited s)))

-- The four cases, and the whole.
erase_line-Edited : (s : Cons) → IsValid s → Edited 21 s (erase_line s)
unfolding erase_line
erase_line-Edited s v =
    let k = kill_line-view (edited s) s v refl in
    (k.0, k.1, k.2 ∙ ap rubouts (sym (length-span s.buf s.w (edited s))), refl)

erase_byte-Edited : (s : Cons) → IsValid s → Edited 8 s (erase_byte s)
unfolding erase_byte
erase_byte-Edited s v = elim (Bool-cases (s.e == s.w)) [
  | inl empty ↦
      let none_left : edited s ≡ 0 = ground (arith, empty) in
      rw empty (
        v,
        ap (λ l. (ready s, l))
            (ap (span s.buf s.w) none_left
              ∙ sym (ap (λ n. drop_last (span s.buf s.w n)) none_left)),
        sym (ap (λ n. if length (span s.buf s.w n) == 0 then [] else rubouts 1) none_left),
        refl,
      )
  | inr more ↦
      let some_left : 0 < edited s = ground (arith, more, v.write_word, v.edit_word) in
      rw more (
        back_one-IsValid s v some_left,
        view-back_one s v some_left,
        sym (
            ap (λ b. if b then [] else rubouts 1)
              (==_ne (length (line s)) 0
                (λ z. omega (arith, z, length-span s.buf s.w (edited s))))),
        refl,
      )
]

erased :
    (key : ℕ) (s : Cons) → IsValid s → (key == 8 || key == 127) ≡ true → Edited key s (erase_byte s)
erased key s v e = elim (Bool-cases (key == 8)) [
  | inl eight ↦
      subst (λ k. Edited k s (erase_byte s)) (sym ((==_iff key 8).0 eight)) (erase_byte-Edited s v)
  | inr other ↦
      subst (λ k. Edited k s (erase_byte s)) (sym ((==_iff key 127).0 (ground (arith, e, other))))
        (erase_byte-Edited s v)
]

consputc-byte : (c : ℕ) → c < 256 → consputc c ≡ c ∷ []
consputc-byte c h = rw (==_ne c 256 (λ e. omega (arith, e))) refl

typed : ℕ → ℕ
typed key = if key == 13 then 10 else key

typed_byte : (key : ℕ) → key < 256 → typed key < 256
unfolding typed
typed_byte key h = ground arith

add_byte-Edited :
    (key : ℕ) (s : Cons)
    → key < 256
    → IsValid s
    → key == 16 ≡ false
    → key == 21 ≡ false
    → (key == 8 || key == 127) ≡ false
    → Edited key s (add_byte key s)
unfolding add_byte typed
add_byte-Edited key s byte v p u e =
    let c = typed key in
    let test : (key == 0 || not (ltb (used s) 128))
        ≡ (key == 0 || not (ltb (length (ready s) + length (line s)) 128)) =
      ap (λ b. key == 0 || not b) (room-test s v) in
    elim (Bool-cases (key == 0 || not (ltb (length (ready s) + length (line s)) 128))) [
      | inl ignored ↦ rw (p, u, e) (rw (test, ignored) (v, refl, refl, refl))
      | inr taken ↦
          let space : used s < 128 = ground (arith, test, taken) in
          let done = passed_on s c v space in
          rw (p, u, e)
            (rw (test, taken) (done.0, done.1, consputc-byte c (typed_byte key byte), done.2))
    ]

-- What an interrupt for a key does is what the editor does: the bytes that are ready and the line are the
-- editor's, whether or not the counters have wrapped, and so are the echo and the wakeup; and the state stays
-- valid.
pub consoleintr-edit :
    (key : ℕ) (s : Cons) → key < 256 → IsValid s → Edited key s (consoleintr key s)
unfolding consoleintr
consoleintr-edit key s byte v = elim (Bool-cases (key == 16)) [
  | inl p ↦ rw p (v, refl, refl, refl)
  | inr p ↦ elim (Bool-cases (key == 21)) [
    | inl u ↦
        let same : erase_line s ≡ consoleintr key s = sym (rw (p, u) refl) in
        subst (Edited key s) same (
          subst (λ k. Edited k s (erase_line s)) (sym ((==_iff key 21).0 u))
            (erase_line-Edited s v))
    | inr u ↦ elim (Bool-cases (key == 8 || key == 127)) [
      | inl e ↦
          let same : erase_byte s ≡ consoleintr key s = sym (rw (p, u, e) refl) in
          subst (Edited key s) same (erased key s v e)
      | inr e ↦
          let same : add_byte key s ≡ consoleintr key s = sym (rw (p, u, e) refl) in
          subst (Edited key s) same (add_byte-Edited key s byte v p u e)
    ]
  ]
]
