-- ===== src/User/Shell/Stops.antt =====
-- Where words and redirections of user/sh.c end, and the tokens of redirections.
use operationg_systems.Prelude.{
  ℕ, ◌<◌, ◌≡◌, refl, ap, ◌∙◌, inl, inr, ◌⊎◌, List, [], ◌∷◌, ◌++◌, true, false, Bool-cases, length,
  arith,
}
use operationg_systems.User.Shell.{
  is_in, is_space, is_symbol, symbols, gettoken, head_in, peek, Cmd, exec, Parsed, ok, Redirs,
  redirected, args_token, args_round, with_redirs,
}
use operationg_systems.User.Shell.Syntax.{
  Direction, from, to, append, Redir, op, redirect, redirect_all, IsWord,
}
use operationg_systems.User.Shell.Lexer.{IsTrim, peek-IsTrim}

abbrev pub token_of : Direction → ℕ
token_of from = b'<'
token_of to = b'>'
token_of append = b'+'

abbrev pub tokens : List Redir → List (ℕ × List ℕ)
tokens [] = []
tokens (r ∷ rs) = (token_of r.way, r.file) ∷ tokens rs

redirected-token :
    (cmd : Cmd) (way : Direction) (file : List ℕ)
    → redirected cmd (token_of way, file) ≡ redirect cmd (record { way = way; file = file })
redirected-token cmd from file = refl
redirected-token cmd to file = refl
redirected-token cmd append file = refl

pub with_redirs-tokens :
    (cmd : Cmd) (rs : List Redir) → with_redirs cmd (tokens rs) ≡ redirect_all cmd rs
with_redirs-tokens cmd [] = refl
with_redirs-tokens cmd (r ∷ rs) =
    ap (λ c. with_redirs c (tokens rs)) (redirected-token cmd r.way r.file)
    ∙ with_redirs-tokens (redirect cmd r) rs

pub word-IsTrim : (w s : List ℕ) → IsWord w → IsTrim (w ++ s)
word-IsTrim [] s h = absurd (h.1 refl)
word-IsTrim (c ∷ w) s h = ground (arith, h.0.0)

pub word_head :
    (toks w s : List ℕ)
    → IsWord w
    → ((c : ℕ) → is_in c toks ≡ true → is_in c symbols ≡ true)
    → head_in toks (w ++ s) ≡ false
unfolding is_symbol
word_head toks [] s h f = absurd (h.1 refl)
word_head toks (c ∷ w) s h f = elim (Bool-cases (is_in c toks)) [
  | inl found ↦ absurd (ground (arith, h.0.0, f c found))
  | inr other ↦ other
]

pub op-IsTrim : (way : Direction) (s : List ℕ) → IsTrim (op way ++ s)
unfolding is_space
op-IsTrim from s = refl
op-IsTrim to s = refl
op-IsTrim append s = refl

pub op_head : (way : Direction) (s : List ℕ) → head_in (b'<' ∷ b'>' ∷ []) (op way ++ s) ≡ true
op_head from s = refl
op_head to s = refl
op_head append s = refl

-- What may stand behind a command: one of the symbols at which the loop of parseexec stops, or nothing.
abbrev pub stops : List ℕ
stops = b'|' ∷ b')' ∷ b'&' ∷ b';' ∷ []

abbrev pub Stops : List ℕ → Type 0
Stops s = (head_in stops s ≡ true) ⊎ (s ≡ [])

pub stops-symbols : (c : ℕ) → is_in c stops ≡ true → is_in c symbols ≡ true
stops-symbols c h = ground (arith, h)

symbol_not_space : (c : ℕ) → is_in c stops ≡ true → is_space c ≡ false
unfolding is_space
symbol_not_space c h = ground (arith, h)

pub Stops-IsTrim : (s : List ℕ) → Stops s → IsTrim s
Stops-IsTrim [] stop = refl
Stops-IsTrim (c ∷ s) (inl e) = symbol_not_space c e
Stops-IsTrim (c ∷ s) (inr e) = absurd (cc)

pub Stops-no_redir : (s : List ℕ) → Stops s → head_in (b'<' ∷ b'>' ∷ []) s ≡ false
Stops-no_redir [] stop = refl
Stops-no_redir (c ∷ s) (inl e) = ground (arith, e)
Stops-no_redir (c ∷ s) (inr e) = absurd (cc)

pub tokens-append : (rs rs' : List Redir) → tokens (rs ++ rs') ≡ tokens rs ++ tokens rs'
tokens-append [] rs' = refl
tokens-append (r ∷ rs) rs' = ap (λ l. (token_of r.way, r.file) ∷ l) (tokens-append rs rs')

pub word_pos : (w : List ℕ) → IsWord w → 0 < length w
word_pos [] h = absurd (h.1 refl)
word_pos (c ∷ w) h = omega arith

pub op_pos : (way : Direction) → 0 < length (op way)
op_pos from = omega arith
op_pos to = omega arith
op_pos append = omega arith

pub redirs-symbols : (c : ℕ) → is_in c (b'<' ∷ b'>' ∷ []) ≡ true → is_in c symbols ≡ true
redirs-symbols c h = ground (arith, h)

gettoken_nil : gettoken [] ≡ (0, [], [])
unfolding gettoken
gettoken_nil = refl

pub args_end :
    (next : List (List ℕ) → Redirs → List ℕ → Parsed (Cmd × List ℕ)) (argv : List (List ℕ))
    (rs : Redirs) (s : List ℕ)
    → IsTrim s
    → Stops s
    → args_round next argv rs (peek stops s) ≡ ok (with_redirs (exec argv) rs, s)
unfolding args_round
args_end next argv rs s t (inl e) =
    ap (args_round next argv rs) (peek-IsTrim stops s t ∙ ap (λ b. (b, s)) e)
args_end next argv rs [] t (inr e) =
    ap (args_round next argv rs) (peek-IsTrim stops [] t)
    ∙ ap (args_token next argv rs) gettoken_nil
args_end next argv rs (c ∷ s) t (inr e) = absurd (cc)
