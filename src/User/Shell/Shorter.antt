-- ===== src/User/Shell/Shorter.antt =====
-- What gettoken and peek of user/sh.c leave of their input: less, where they find a token.
use operationg_systems.Prelude.{
  ◌⊎◌, ℕ, ◌≤◌, ◌<◌, ◌≡◌, refl, ap, sym, ◌∙◌, inl, inr, List, [], ◌∷◌, true, false, ◌||◌, ◌==◌,
  Bool-cases, length, arith,
}
use operationg_systems.User.Shell.{
  is_in, is_space, is_symbol, skip_space, read_word, greater, token_at, gettoken, head_in, peek,
}
use operationg_systems.User.Shell.Lexer.{token_at-default, gettoken-IsTrim}

skip_space_le : (s : List ℕ) → length (skip_space s) ≤ length s
unfolding skip_space
skip_space_le [] = omega arith
skip_space_le (c ∷ s) = elim (Bool-cases (is_space c)) [
  | inl space ↦ rw space (omega (arith, skip_space_le s))
  | inr other ↦ rw other (omega arith)
]

read_word_le : (s : List ℕ) → length (read_word s).1 ≤ length s
unfolding read_word
read_word_le [] = omega arith
read_word_le (c ∷ s) = elim (Bool-cases (is_space c || is_symbol c)) [
  | inl stop ↦ rw stop (omega arith)
  | inr other ↦ rw other (omega (arith, read_word_le s))
]

greater_le : (s : List ℕ) → length (greater s).2 ≤ length s
unfolding greater
greater_le [] = omega arith
greater_le (c ∷ s) = elim (Bool-cases (c == b'>')) [
  | inl same ↦ rw same (omega (arith, skip_space_le s))
  | inr other ↦ rw other (skip_space_le (c ∷ s))
]

-- A token is not empty.
read_word_less :
    (c : ℕ) (s : List ℕ)
    → (is_space c || is_symbol c) ≡ false
    → length (read_word (c ∷ s)).1 ≤ length s
unfolding read_word
read_word_less c s h = rw h (read_word_le s)

token_at_less : (c : ℕ) (s : List ℕ) → is_space c ≡ false → length (token_at (c ∷ s)).2 ≤ length s
unfolding token_at is_symbol
token_at_less c s h = elim (Bool-cases (is_in c (b'|' ∷ b'(' ∷ b')' ∷ b';' ∷ b'&' ∷ b'<' ∷ []))) [
  | inl symbol ↦ rw symbol (skip_space_le s)
  | inr other ↦ elim (Bool-cases (c == b'>')) [
    | inl angle ↦ rw (other, angle) (greater_le s)
    | inr plain ↦
        let ordinary : (is_space c || is_symbol c) ≡ false = ground (arith, h, other, plain) in
        omega (
          arith,
          ap (λ t. length t.2) (token_at-default c s other plain),
          skip_space_le (read_word (c ∷ s)).1,
          read_word_less c s ordinary,
        )
  ]
]

skipped :
    (s : List ℕ)
    → (skip_space s ≡ []) ⊎ ((c : ℕ) × (t : List ℕ) × (skip_space s ≡ c ∷ t) × (is_space c ≡ false))
unfolding skip_space
skipped [] = inl refl
skipped (c ∷ s) = elim (Bool-cases (is_space c)) [
  | inl space ↦ rw space (skipped s)
  | inr other ↦ rw other (inr (c, s, refl, other))
]

-- gettoken takes a byte at least, or finds the end.
pub gettoken_less : (s : List ℕ) → ((gettoken s).0 ≡ 0) ⊎ (length (gettoken s).2 < length s)
unfolding gettoken token_at
gettoken_less s = elim (skipped s) [
  | inl e ↦ inl (ap (λ l. (token_at l).0) e)
  | inr (c, t, e, blank) ↦ inr (
      omega (
        arith,
        skip_space_le s,
        ap (λ l. length l) e,
        ap (λ l. length (token_at l).2) e,
        token_at_less c t blank,
      ))
]

pub gettoken_le : (s : List ℕ) → length (gettoken s).2 ≤ length s
unfolding gettoken token_at
gettoken_le s = elim (skipped s) [
  | inl e ↦ omega (arith, ap (λ l. length (token_at l).2) e)
  | inr (c, t, e, blank) ↦ omega (
    arith,
    skip_space_le s,
    ap (λ l. length l) e,
    ap (λ l. length (token_at l).2) e,
    token_at_less c t blank,
  )
]

-- Behind a peek that found one of its bytes gettoken takes one.
pub found_less :
    (toks s : List ℕ) → (peek toks s).0 ≡ true → length (gettoken (peek toks s).1).2 < length s
unfolding peek
found_less toks s h = elim (skipped s) [
  | inl e ↦ absurd (cc (sym h ∙ ap (λ l. head_in toks l) e))
  | inr (c, t, e, blank) ↦ omega (
    arith,
    skip_space_le s,
    ap (λ l. length l) e,
    ap (λ l. length (gettoken l).2) e,
    ap (λ l. length l.2) (gettoken-IsTrim (c ∷ t) blank),
    token_at_less c t blank,
  )
]

pub peek_le : (toks s : List ℕ) → length (peek toks s).1 ≤ length s
unfolding peek
peek_le toks s = skip_space_le s
