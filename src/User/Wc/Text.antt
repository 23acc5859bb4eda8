-- ===== src/User/Wc/Text.antt =====
-- The counts of user/wc.c against the text, whatever the reads return it in.
use operationg_systems.Prelude.{
  ℕ, ◌+◌, ◌%◌, ◌^◌, ◌≡◌, ◌<◌, refl, ap, sym, ◌∙◌, inl, inr, List, [], ◌∷◌, ◌++◌, Bool, true, false,
  not, ◌==◌, if◌then◌else◌, some, map, Bool-cases, length, arith,
}
use operationg_systems.User.Wc.{
  Counts, start, blank, int_inc, count_byte, count_buf, count_reads, wc,
}

-- The words of a text, `cur` being what has been read of the first one: the longest runs without blanks.
abbrev pub words_from : List ℕ → List ℕ → List (List ℕ)
words_from [] [] = []
words_from (c ∷ cur) [] = (c ∷ cur) ∷ []
words_from [] (x ∷ text) = if blank x then words_from [] text else words_from (x ∷ []) text
words_from (c ∷ cur) (x ∷ text) =
    if blank x then (c ∷ cur) ∷ words_from [] text else words_from ((c ∷ cur) ++ x ∷ []) text

abbrev pub newlines : List ℕ → ℕ
newlines [] = 0
newlines (c ∷ text) = (if c == 10 then 1 else 0) + newlines text

abbrev pub joined : List (List ℕ) → List ℕ
joined [] = []
joined (buf ∷ bufs) = buf ++ joined bufs

abbrev pub NonEmpty : List (List ℕ) → Type 0
NonEmpty [] = Unit {0}
NonEmpty (buf ∷ bufs) = (0 < length buf) × NonEmpty bufs

-- A byte begins a word, behind a word or not, and so do as many bytes of a text.
begins : Bool → ℕ → ℕ
begins inword x = if blank x then 0 else if inword then 0 else 1

begun : Bool → List ℕ → ℕ
begun inword [] = 0
begun inword (x ∷ text) = begins inword x + begun (not (blank x)) text

length-words_from :
    (text : List ℕ)
    → (length (words_from [] text) ≡ begun false text)
      × ((c : ℕ) (cur : List ℕ) → length (words_from (c ∷ cur) text) ≡ 1 + begun true text)
unfolding begun begins
length-words_from [] = (refl, λ c cur. refl)
length-words_from (x ∷ text) =
    let rest = length-words_from text in
    elim (Bool-cases (blank x)) [
      | inl space ↦ rw space (rest.0 ∙ omega arith, λ c cur. omega (arith, rest.0))
      | inr letter ↦ rw letter (rest.1 x [], λ c cur. rest.1 c (cur ++ x ∷ []) ∙ omega arith)
    ]

count_byte_lem :
    (s : Counts) (x : ℕ)
    → s.lines < 2 ^ 32
    → s.words < 2 ^ 32
    → ((count_byte s x).lines ≡ (s.lines + (if x == 10 then 1 else 0)) % 2 ^ 32)
      × ((count_byte s x).words ≡ (s.words + begins s.inword x) % 2 ^ 32)
      × ((count_byte s x).bytes ≡ (s.bytes + 1) % 2 ^ 32)
      × ((count_byte s x).inword ≡ not (blank x))
unfolding count_byte begins
count_byte_lem s x l w =
    let same : (n : ℕ) → n < 2 ^ 32 → n ≡ (n + 0) % 2 ^ 32 = λ n h. omega arith in
    let lines : (if x == 10 then int_inc s.lines else s.lines)
        ≡ (s.lines + (if x == 10 then 1 else 0)) % 2 ^ 32 =
      elim (Bool-cases (x == 10)) [
        | inl newline ↦ rw newline refl
        | inr other ↦ rw other (same s.lines l)
      ] in
    elim (Bool-cases (blank x)) [
      | inl space ↦ rw space (lines, same s.words w, refl, refl)
      | inr letter ↦ rw letter elim (Bool-cases s.inword) [
        | inl inside ↦ rw inside (lines, same s.words w, refl, refl)
        | inr outside ↦ rw outside (lines, refl, refl, refl)
      ]
    ]

-- The counters, modulo 2^32.
count_buf-counts :
    (s : Counts) (text : List ℕ)
    → s.lines < 2 ^ 32
    → s.words < 2 ^ 32
    → s.bytes < 2 ^ 32
    → ((count_buf s text).lines ≡ (s.lines + newlines text) % 2 ^ 32)
      × ((count_buf s text).words ≡ (s.words + begun s.inword text) % 2 ^ 32)
      × ((count_buf s text).bytes ≡ (s.bytes + length text) % 2 ^ 32)
unfolding count_buf begun
count_buf-counts s [] l w b = (omega arith, omega arith, omega arith)
count_buf-counts s (x ∷ text) l w b =
    let now = count_byte_lem s x l w in
    let rest =
      count_buf-counts (count_byte s x) text (omega (arith, now.0)) (omega (arith, now.1))
        (omega (arith, now.2)) in
    let add : (a k n : ℕ) → ((a + k) % 2 ^ 32 + n) % 2 ^ 32 ≡ (a + (k + n)) % 2 ^ 32 =
      λ a k n. omega arith in
    (
      rest.0
          ∙ ap (λ n. (n + newlines text) % 2 ^ 32) now.0
          ∙ add s.lines (if x == 10 then 1 else 0) (newlines text),
      rest.1
          ∙ ap (λ n. (n + begun (count_byte s x).inword text) % 2 ^ 32) now.1
          ∙ ap (λ inword. ((s.words + begins s.inword x) % 2 ^ 32 + begun inword text) % 2 ^ 32)
              now.3
          ∙ add s.words (begins s.inword x) (begun (not (blank x)) text),
      rest.2
          ∙ ap (λ n. (n + length text) % 2 ^ 32) now.2
          ∙ add s.bytes 1 (length text)
          ∙ ap (λ n. (s.bytes + n) % 2 ^ 32) (omega arith),
    )

count_buf-append :
    (s : Counts) (xs ys : List ℕ) → count_buf s (xs ++ ys) ≡ count_buf (count_buf s xs) ys
unfolding count_buf
count_buf-append s [] ys = refl
count_buf-append s (x ∷ xs) ys = count_buf-append (count_byte s x) xs ys

count_reads-joined :
    (s : Counts) (bufs : List (List ℕ))
    → NonEmpty bufs
    → count_reads s (map (λ l. some l) bufs ++ some [] ∷ []) ≡ some (count_buf s (joined bufs))
unfolding count_reads
count_reads-joined s [] h = refl
count_reads-joined s ([] ∷ bufs) h = absurd (omega (arith, h.0))
count_reads-joined s ((c ∷ buf) ∷ bufs) h =
    count_reads-joined (count_buf s (c ∷ buf)) bufs h.1
    ∙ ap (λ r. some r) (sym (count_buf-append s (c ∷ buf) (joined bufs)))

-- However the reads cut a file, wc prints the number of its newlines, of its words and of its bytes, each as
-- far as an int can hold it.
pub wc_counts :
    (bufs : List (List ℕ))
    → NonEmpty bufs
    → (r : Counts) × (wc (map (λ l. some l) bufs ++ some [] ∷ []) ≡ some r)
      × (r.lines ≡ newlines (joined bufs) % 2 ^ 32)
      × (r.words ≡ length (words_from [] (joined bufs)) % 2 ^ 32)
      × (r.bytes ≡ length (joined bufs) % 2 ^ 32)
unfolding wc
wc_counts bufs h =
    let text = joined bufs in
    let plus_zero : (n : ℕ) → (0 + n) % 2 ^ 32 ≡ n % 2 ^ 32 = λ n. omega arith in
    let c = count_buf-counts start text (omega arith) (omega arith) (omega arith) in
    (
      count_buf start text,
      count_reads-joined start bufs h,
      c.0 ∙ plus_zero (newlines text),
      c.1 ∙ plus_zero (begun false text) ∙ ap (λ n. n % 2 ^ 32) (sym (length-words_from text).0),
      c.2 ∙ plus_zero (length text),
    )
