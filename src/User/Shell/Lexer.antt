-- ===== src/User/Shell/Lexer.antt =====
-- gettoken and peek of user/sh.c on tokens with spaces behind them.
use operationg_systems.Prelude.{
  ℕ, ◌≢◌, ◌≡◌, refl, ap, ◌∙◌, List, [], ◌∷◌, ◌++◌, Bool, true, false, ◌||◌, ◌==◌, arith,
}
use operationg_systems.User.Shell.{
  is_in, is_space, is_symbol, symbols, skip_space, read_word, greater, token_at, gettoken, head_in,
  peek,
}
use operationg_systems.User.Shell.Syntax.{plain, AllPlain, IsWord, AllSpaces}

-- The input does not begin with a space.
abbrev pub starts_blank : List ℕ → Bool
starts_blank [] = false
starts_blank (c ∷ s) = is_space c

abbrev pub IsTrim : List ℕ → Type 0
IsTrim s = starts_blank s ≡ false

skip_space-IsTrim : (s : List ℕ) → IsTrim s → skip_space s ≡ s
unfolding skip_space
skip_space-IsTrim [] h = refl
skip_space-IsTrim (c ∷ s) h = rw h refl

skip_space-append : (gap s : List ℕ) → AllSpaces gap → IsTrim s → skip_space (gap ++ s) ≡ s
unfolding skip_space
skip_space-append [] s g h = skip_space-IsTrim s h
skip_space-append (c ∷ gap) s g h = rw g.0 (skip_space-append gap s g.1 h)

pub peek-IsTrim : (toks s : List ℕ) → IsTrim s → peek toks s ≡ (head_in toks s, s)
unfolding peek
peek-IsTrim toks s h = ap (λ l. (head_in toks l, l)) (skip_space-IsTrim s h)

-- A word ends at a space.
read_word-append :
    (w : List ℕ) (g : ℕ) (s : List ℕ)
    → AllPlain w
    → is_space g ≡ true
    → read_word (w ++ g ∷ s) ≡ (w, g ∷ s)
unfolding read_word
read_word-append [] g s a e = rw e refl
read_word-append (c ∷ w) g s a e =
    let ordinary : (is_space c || is_symbol c) ≡ false = ground (arith, a.0) in
    rw ordinary (ap (λ r. (c ∷ r.0, r.1)) (read_word-append w g s a.1 e))

-- Spaces `gap`, of which there is one at least.
abbrev pub IsGap : List ℕ → Type 0
IsGap gap = AllSpaces gap × (gap ≢ [])

abbrev pub simple_symbols : List ℕ
simple_symbols = b'|' ∷ b'(' ∷ b')' ∷ b';' ∷ b'&' ∷ b'<' ∷ []

symbol-is_space : (c : ℕ) → is_in c symbols ≡ true → is_space c ≡ false
unfolding is_space
symbol-is_space c h = ground (arith, h)

plain-symbol : (c : ℕ) → plain c ≡ true → is_in c (b'>' ∷ simple_symbols) ≡ false
unfolding is_symbol
plain-symbol c h = ground (arith, h)

pub gettoken-IsTrim : (s : List ℕ) → IsTrim s → gettoken s ≡ token_at s
unfolding gettoken
gettoken-IsTrim s h = ap token_at (skip_space-IsTrim s h)

token_at-symbol :
    (c : ℕ) (s : List ℕ)
    → is_in c simple_symbols ≡ true
    → token_at (c ∷ s) ≡ (c, c ∷ [], skip_space s)
unfolding token_at
token_at-symbol c s e = rw e refl

pub token_at-default :
    (c : ℕ) (s : List ℕ)
    → is_in c simple_symbols ≡ false
    → c == b'>' ≡ false
    → token_at (c ∷ s) ≡ (b'a', (read_word (c ∷ s)).0, skip_space (read_word (c ∷ s)).1)
unfolding token_at
token_at-default c s e f = rw (e, f) refl

pub gettoken-symbol :
    (gap s : List ℕ) (c : ℕ)
    → IsGap gap
    → IsTrim s
    → is_in c simple_symbols ≡ true
    → gettoken (c ∷ (gap ++ s)) ≡ (c, c ∷ [], s)
gettoken-symbol gap s c g h e =
    gettoken-IsTrim (c ∷ (gap ++ s)) (symbol-is_space c (ground (arith, e)))
    ∙ token_at-symbol c (gap ++ s) e
    ∙ ap (λ l. (c, c ∷ [], l)) (skip_space-append gap s g.0 h)

pub gettoken-word :
    (gap w s : List ℕ) → IsGap gap → IsWord w → IsTrim s → gettoken (w ++ (gap ++ s)) ≡ (b'a', w, s)
gettoken-word [] w s g a h = absurd (g.1 refl)
gettoken-word (x ∷ gap) [] s g a h = absurd (a.1 refl)
gettoken-word (x ∷ gap) (c ∷ w) s g a h =
    let blank : is_space c ≡ false = ground (arith, a.0.0) in
    let t = w ++ x ∷ (gap ++ s) in
    let other = plain-symbol c a.0.0 in
    gettoken-IsTrim (c ∷ t) blank
    ∙ token_at-default c t (ground (arith, other)) (ground (arith, other))
    ∙ ap (λ r. (b'a', r.0, skip_space r.1)) (read_word-append (c ∷ w) x (gap ++ s) a.0 g.0.0)
    ∙ ap (λ l. (b'a', c ∷ w, l)) (skip_space-append (x ∷ gap) s g.0 h)

blank-other : (x : ℕ) → is_space x ≡ true → x == b'>' ≡ false
unfolding is_space
blank-other x h = ground (arith, h)

greater-IsGap : (gap s : List ℕ) → IsGap gap → IsTrim s → greater (gap ++ s) ≡ (b'>', b'>' ∷ [], s)
unfolding greater
greater-IsGap [] s g h = absurd (g.1 refl)
greater-IsGap (x ∷ gap) s g h =
    let other : x == b'>' ≡ false = blank-other x g.0.0 in
    rw other (ap (λ l. (b'>', b'>' ∷ [], l)) (skip_space-append (x ∷ gap) s g.0 h))

pub gettoken-greater :
    (gap s : List ℕ)
    → IsGap gap
    → IsTrim s
    → (gettoken (b'>' ∷ (gap ++ s)) ≡ (b'>', b'>' ∷ [], s))
      × (gettoken (b'>' ∷ b'>' ∷ (gap ++ s)) ≡ (b'+', b'>' ∷ b'>' ∷ [], s))
unfolding gettoken is_space
gettoken-greater gap s g h =
    (greater-IsGap gap s g h, ap (λ l. (b'+', b'>' ∷ b'>' ∷ [], l)) (skip_space-append gap s g.0 h))
