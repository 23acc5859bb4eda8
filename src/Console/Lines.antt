-- ===== src/Console/Lines.antt =====
-- The bytes that are ready and the line of kernel/console.c, as its counters move.
use operationg_systems.Prelude.{
  ℕ, suc, ◌+◌, ◌-◌, ◌%◌, ◌^◌, ◌≡◌, ◌≢◌, ◌<◌, refl, ap, sym, subst, ◌∙◌, List, [], ◌∷◌, ◌++◌, arith,
  length, get_or, set, length-set, get_or-set_self,
}
use operationg_systems.Console.{Cons, edited, used, back_one, store_byte}
use operationg_systems.Console.Ring.{
  span, waiting, ready, line, NoNewline, IsValid, length-span, span-set_behind, span_last,
  span-append,
}

-- The line without its last byte.
abbrev pub drop_last : List ℕ → List ℕ
drop_last [] = []
drop_last (c ∷ []) = []
drop_last (c ∷ d ∷ l) = c ∷ drop_last (d ∷ l)

drop_last-append : (l : List ℕ) (c : ℕ) → drop_last (l ++ c ∷ []) ≡ l
drop_last-append [] c = refl
drop_last-append (d ∷ []) c = refl
drop_last-append (d ∷ e ∷ l) c = ap (λ t. d ∷ t) (drop_last-append (e ∷ l) c)

pub append-NoNewline : (l : List ℕ) (c : ℕ) → NoNewline (l ++ c ∷ []) → NoNewline l × (c ≢ 10)
append-NoNewline [] c h = (tt, h.0)
append-NoNewline (d ∷ l) c h = ((h.0, (append-NoNewline l c h.1).0), (append-NoNewline l c h.1).1)

NoNewline-append : (l : List ℕ) (c : ℕ) → NoNewline l → c ≢ 10 → NoNewline (l ++ c ∷ [])
NoNewline-append [] c h n = (n, tt)
NoNewline-append (d ∷ l) c h n = (h.0, NoNewline-append l c h.1 n)

abbrev pub view : Cons → List ℕ × List ℕ
view s = (ready s, line s)

-- One byte less in the line.
pub line-back_one :
    (s : Cons)
    → IsValid s
    → 0 < edited s
    → line s ≡ line (back_one s) ++ get_or s.buf ((s.e + 2 ^ 32 - 1) % 2 ^ 32 % 128) 0 ∷ []
unfolding back_one
line-back_one s v h =
    ap (span s.buf s.w) {x = edited s} {y = suc (edited (back_one s))}
      (ground (arith, v.write_word, v.edit_word))
    ∙ span_last s.buf s.w (edited (back_one s))
    ∙ ap (λ i. span s.buf s.w (edited (back_one s)) ++ get_or s.buf i 0 ∷ [])
        {x = (s.w + edited (back_one s)) % 128} {y = (s.e + 2 ^ 32 - 1) % 2 ^ 32 % 128}
        (ground (arith, v.write_word, v.edit_word))

pub back_one-IsValid : (s : Cons) → IsValid s → 0 < edited s → IsValid (back_one s)
unfolding back_one
back_one-IsValid s v h = record {
  room = v.room;
  few = ground (arith, v.write_word, v.edit_word, v.few);
  read_word = v.read_word;
  write_word = v.write_word;
  edit_word = omega arith;
  plain =
      (append-NoNewline (line (back_one s)) (get_or s.buf ((s.e + 2 ^ 32 - 1) % 2 ^ 32 % 128) 0)
        (subst NoNewline (line-back_one s v h) v.plain)).0;
}

pub view-back_one :
    (s : Cons) → IsValid s → 0 < edited s → view (back_one s) ≡ (ready s, drop_last (line s))
unfolding back_one
view-back_one s v h =
    ap (λ l. (ready s, l))
      (sym (
          drop_last-append (line (back_one s)) (get_or s.buf ((s.e + 2 ^ 32 - 1) % 2 ^ 32 % 128) 0))
        ∙ ap drop_last (sym (line-back_one s v h)))

pub edited-back_one : (s : Cons) (n : ℕ) → IsValid s → edited s ≡ suc n → edited (back_one s) ≡ n
unfolding back_one
edited-back_one s n v e = ground (arith, v.write_word, v.edit_word)

pub ready-back_one : (s : Cons) → ready (back_one s) ≡ ready s
unfolding back_one
ready-back_one s = refl

pub used-sum : (s : Cons) → IsValid s → used s ≡ waiting s + edited s
used-sum s v = omega (arith, v.few, v.read_word, v.write_word, v.edit_word)

edited-store_byte :
    (s : Cons) (c : ℕ) → IsValid s → edited s < 128 → edited (store_byte s c) ≡ suc (edited s)
unfolding store_byte
edited-store_byte s c v h = ground (arith, v.write_word, v.edit_word)

-- A byte that is stored ends the line.
pub ready-store_byte :
    (s : Cons) (c : ℕ) → IsValid s → used s < 128 → ready (store_byte s c) ≡ ready s
unfolding store_byte
ready-store_byte s c v h =
    span-set_behind s.buf c (waiting s) (edited s) s.r (s.e % 128) (omega (arith, used-sum s v))
      (omega (arith, used-sum s v, v.read_word, v.write_word, v.edit_word))

pub line-store_byte :
    (s : Cons) (c : ℕ) → IsValid s → used s < 128 → line (store_byte s c) ≡ line s ++ c ∷ []
unfolding store_byte
line-store_byte s c v h =
    let buf = set s.buf (s.e % 128) c in
    let at : (s.w + edited s) % 128 ≡ s.e % 128 = omega (arith, v.write_word, v.edit_word) in
    let small : edited s + 0 < 128 = omega (arith, used-sum s v) in
    ap (span buf s.w) (edited-store_byte s c v (omega (arith, used-sum s v)))
    ∙ span_last buf s.w (edited s)
    ∙ ap (λ l. l ++ get_or buf ((s.w + edited s) % 128) 0 ∷ [])
        (span-set_behind s.buf c (edited s) 0 s.w (s.e % 128) small (omega (arith, at)))
    ∙ ap (λ x. line s ++ x ∷ [])
        (ap (λ n. get_or buf n 0) at
          ∙ get_or-set_self s.buf (s.e % 128) c 0 (omega (arith, v.room)))

-- The line is passed on: what was ready and the line are ready.
pub ready_passed :
    (s : Cons) (c : ℕ)
    → IsValid s
    → used s < 128
    → (waiting (record (store_byte s c) { w = (store_byte s c).e }) ≡ suc (used s))
      × (ready (record (store_byte s c) { w = (store_byte s c).e }) ≡ ready s ++ (line s ++ c ∷ []))
unfolding store_byte
ready_passed s c v h =
    let t = store_byte s c in
    let n : (t.e + 2 ^ 32 - s.r) % 2 ^ 32 ≡ waiting t + edited t = omega (
      arith,
      used-sum s v,
      edited-store_byte s c v (omega (arith, used-sum s v)),
      v.read_word,
      v.edit_word,
    ) in
    (
      omega (arith, v.read_word, v.edit_word),
      ap (span t.buf s.r) n
          ∙ sym (
              span-append t.buf s.r s.w (waiting t) (edited t) v.read_word
                (omega (arith, v.read_word, v.write_word)))
          ∙ ap (λ l. l ++ line t) (ready-store_byte s c v h)
          ∙ ap (λ l. ready s ++ l) (line-store_byte s c v h),
    )

pub used-store_byte :
    (s : Cons) (c : ℕ)
    → IsValid s
    → used s < 128
    → used (store_byte s c) ≡ length (ready s) + length (line s) + 1
unfolding store_byte
used-store_byte s c v h = omega (
  arith,
  used-sum s v,
  length-span s.buf s.r (waiting s),
  length-span s.buf s.w (edited s),
  v.read_word,
  v.edit_word,
)

pub passed-IsValid :
    (s : Cons) (c : ℕ)
    → IsValid s
    → used s < 128
    → IsValid (record (store_byte s c) { w = (store_byte s c).e })
unfolding store_byte
passed-IsValid s c v h = record {
  room = length-set s.buf (s.e % 128) c ∙ v.room;
  few = omega (arith, (ready_passed s c v h).0);
  read_word = v.read_word;
  write_word = omega arith;
  edit_word = omega arith;
  plain =
      subst (λ n. NoNewline (span (set s.buf (s.e % 128) c) ((s.e + 1) % 2 ^ 32) n)) {x = 0}
        {y = ((s.e + 1) % 2 ^ 32 + 2 ^ 32 - (s.e + 1) % 2 ^ 32) % 2 ^ 32} (omega arith) tt;
}

pub stored-IsValid :
    (s : Cons) (c : ℕ) → IsValid s → used s < 128 → c ≢ 10 → IsValid (store_byte s c)
unfolding store_byte
stored-IsValid s c v h other = record {
  room = length-set s.buf (s.e % 128) c ∙ v.room;
  few = omega (arith, used-sum s v, edited-store_byte s c v (omega (arith, used-sum s v)));
  read_word = v.read_word;
  write_word = v.write_word;
  edit_word = omega arith;
  plain =
      subst NoNewline (sym (line-store_byte s c v h)) (NoNewline-append (line s) c v.plain other);
}

pub line_passed : (t : Cons) → line (record t { w = t.e }) ≡ []
line_passed t = ap (span t.buf t.e) {x = (t.e + 2 ^ 32 - t.e) % 2 ^ 32} {y = 0} (omega arith)
