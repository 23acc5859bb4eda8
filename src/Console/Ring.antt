-- ===== src/Console/Ring.antt =====
-- The buffer of kernel/console.c as the bytes that are ready to be read and the line that is edited.
use operationg_systems.Prelude.{
  ℕ, zero, suc, ◌+◌, ◌-◌, ◌%◌, ◌^◌, ◌≡◌, ◌≢◌, ◌<◌, ◌≤◌, refl, ap, ◌∙◌, List, [], ◌∷◌, ◌++◌, arith,
  length, get_or, set, get_or-set_ne,
}
use operationg_systems.Console.{Cons, edited}

-- `n` bytes of the buffer from the counter r on
abbrev pub span : List ℕ → ℕ → ℕ → List ℕ
span buf r zero = []
span buf r (suc n) = get_or buf (r % 128) 0 ∷ span buf ((r + 1) % 2 ^ 32) n

-- cons.w - cons.r
abbrev pub waiting : Cons → ℕ
waiting s = (s.w + 2 ^ 32 - s.r) % 2 ^ 32

abbrev pub ready : Cons → List ℕ
ready s = span s.buf s.r (waiting s)

abbrev pub line : Cons → List ℕ
line s = span s.buf s.w (edited s)

abbrev pub NoNewline : List ℕ → Type 0
NoNewline [] = Unit {0}
NoNewline (c ∷ l) = (c ≢ 10) × NoNewline l

pub record IsValid (s : Cons) : Type 0 where
  pub room : length s.buf ≡ 128
  pub few : waiting s + edited s ≤ 128
  pub read_word : s.r < 2 ^ 32
  pub write_word : s.w < 2 ^ 32
  pub edit_word : s.e < 2 ^ 32
  pub plain : NoNewline (line s)

pub length-span : (buf : List ℕ) (r n : ℕ) → length (span buf r n) ≡ n
length-span buf r zero = refl
length-span buf r (suc n) = ap suc (length-span buf ((r + 1) % 2 ^ 32) n)

-- A byte written behind a span leaves it.
pub span-set_behind :
    (buf : List ℕ) (x n k r i : ℕ)
    → n + k < 128
    → i ≡ (r + n + k) % 128
    → span (set buf i x) r n ≡ span buf r n
span-set_behind buf x zero k r i h e = refl
span-set_behind buf x (suc n) k r i h e =
    ap (λ a. a ∷ span (set buf i x) ((r + 1) % 2 ^ 32) n)
      (get_or-set_ne buf i (r % 128) x 0 (λ q. omega arith))
    ∙ ap (λ l. get_or buf (r % 128) 0 ∷ l)
        (span-set_behind buf x n k ((r + 1) % 2 ^ 32) i (omega arith) (omega arith))

-- The last byte of a span.
pub span_last :
    (buf : List ℕ) (r n : ℕ)
    → span buf r (suc n) ≡ span buf r n ++ get_or buf ((r + n) % 128) 0 ∷ []
span_last buf r zero = ap (λ i. get_or buf i 0 ∷ []) {x = r % 128} {y = (r + 0) % 128} (omega arith)
span_last buf r (suc n) =
    ap (λ l. get_or buf (r % 128) 0 ∷ l)
      (span_last buf ((r + 1) % 2 ^ 32) n
        ∙ ap (λ i. span buf ((r + 1) % 2 ^ 32) n ++ get_or buf i 0 ∷ [])
            {x = ((r + 1) % 2 ^ 32 + n) % 128} {y = (r + suc n) % 128} (omega arith))

pub span-append :
    (buf : List ℕ) (r w m n : ℕ)
    → r < 2 ^ 32
    → w ≡ (r + m) % 2 ^ 32
    → span buf r m ++ span buf w n ≡ span buf r (m + n)
span-append buf r w zero n h e =
    ap (λ x. span buf x n) {x = w} {y = r} (omega arith)
    ∙ ap (span buf r) {x = n} {y = zero + n} (omega arith)
span-append buf r w (suc m) n h e =
    ap (λ l. get_or buf (r % 128) 0 ∷ l)
      (span-append buf ((r + 1) % 2 ^ 32) w m n (omega arith) (omega arith))
    ∙ ap (span buf r) {x = suc (m + n)} {y = suc m + n} (omega arith)
