-- ===== src/User/Shell.antt =====
-- The parser of user/sh.c of Assignment1_2. The input is the list of the bytes from *ps to es, behind which
-- stands a 0; a word is the bytes from q to eq, which nulterminate makes a string. malloc is taken to succeed.
pub mod Lexer
pub mod Syntax
pub mod Stops
pub mod Shorter
pub mod Words
pub mod RoundTrip
pub mod Ends
mod Tests
use operationg_systems.Prelude.{
  ℕ, zero, suc, ◌+◌, ◌*◌, ◌%◌, List, [], ◌∷◌, ◌++◌, Bool, true, false, not, ◌&&◌, ◌||◌, ◌==◌, leb,
  if◌then◌else◌, length,
}

-- strchr(toks, c) != 0
abbrev pub is_in : ℕ → List ℕ → Bool
is_in c [] = false
is_in c (t ∷ toks) = c == t || is_in c toks

abbrev pub whitespace : List ℕ
whitespace = 32 ∷ 9 ∷ 13 ∷ 10 ∷ 11 ∷ []

abbrev pub symbols : List ℕ
symbols = b'<' ∷ b'|' ∷ b'>' ∷ b'&' ∷ b';' ∷ b'(' ∷ b')' ∷ []

unfoldable pub is_space : ℕ → Bool
is_space c = is_in c whitespace

unfoldable pub is_symbol : ℕ → Bool
is_symbol c = is_in c symbols

-- while(s < es && strchr(whitespace, *s)) s++;
unfoldable pub skip_space : List ℕ → List ℕ
skip_space [] = []
skip_space (c ∷ s) = let rest = skip_space s in if is_space c then rest else c ∷ s

-- The loop of the default case: the bytes passed, and what is behind them.
unfoldable pub read_word : List ℕ → List ℕ × List ℕ
read_word [] = ([], [])
read_word (c ∷ s) =
    let rest = read_word s in
    if is_space c || is_symbol c then ([], c ∷ s) else (c ∷ rest.0, rest.1)

-- The switch of gettoken: the token, the bytes from q to eq, and *ps.
unfoldable pub greater : List ℕ → ℕ × List ℕ × List ℕ
unfolding skip_space
greater [] = (b'>', b'>' ∷ [], [])
greater (c ∷ s) =
    if c == b'>'
    then (b'+', b'>' ∷ b'>' ∷ [], skip_space s)
    else (b'>', b'>' ∷ [], skip_space (c ∷ s))

unfoldable pub token_at : List ℕ → ℕ × List ℕ × List ℕ
unfolding skip_space read_word greater
token_at [] = (0, [], [])
token_at (c ∷ s) =
    let w = read_word (c ∷ s) in
    if is_in c (b'|' ∷ b'(' ∷ b')' ∷ b';' ∷ b'&' ∷ b'<' ∷ [])
    then (c, c ∷ [], skip_space s)
    else if c == b'>'
    then greater s
    else (b'a', w.0, skip_space w.1)

unfoldable pub gettoken : List ℕ → ℕ × List ℕ × List ℕ
unfolding skip_space token_at
gettoken s = token_at (skip_space s)

-- Whether the next byte is one of toks, and *ps.
abbrev pub head_in : List ℕ → List ℕ → Bool
head_in toks [] = false
head_in toks (c ∷ s) = is_in c toks

unfoldable pub peek : List ℕ → List ℕ → Bool × List ℕ
unfolding skip_space
peek toks s = (head_in toks (skip_space s), skip_space s)

-- struct cmd and the five structs that begin like it; a redirection has its file, mode and descriptor.
pub data Cmd : Type 0 where
  exec : List (List ℕ) → Cmd
  redir : Cmd → List ℕ → ℕ → ℕ → Cmd
  pipe : Cmd → Cmd → Cmd
  list : Cmd → Cmd → Cmd
  back : Cmd → Cmd

-- A tree, panic("syntax") or another panic of the parser; out_of_fuel has no counterpart in the code.
pub data Parsed (A : Type 0) : Type 0 where
  ok : A → Parsed A
  panic out_of_fuel : Parsed A

infixl 5 ◌>>=◌
abbrev pub ◌>>=◌ : {A B : Type 0} → Parsed A → (A → Parsed B) → Parsed B
ok a >>= next = next a
panic >>= next = panic
out_of_fuel >>= next = out_of_fuel

-- The switch of parseredirs: O_RDONLY, O_WRONLY|O_CREATE|O_TRUNC, or O_WRONLY|O_CREATE.
abbrev pub redirected : Cmd → ℕ × List ℕ → Cmd
redirected cmd (tok, file) =
    if tok == b'<'
    then redir cmd file 0 0
    else if tok == b'>'
    then redir cmd file 0x601 1
    else redir cmd file 0x201 1

-- The redirections of a command, the first of them innermost.
abbrev pub with_redirs : Cmd → List (ℕ × List ℕ) → Cmd
with_redirs cmd [] = cmd
with_redirs cmd (r ∷ rs) = with_redirs (redirected cmd r) rs

-- A round of parseredirs with the token behind the symbol, and with what peek found; `next` is the loop, behind
-- the redirections rs that the command has. ret points around the command, which parseexec goes on to fill.
abbrev pub Redirs : Type 0
Redirs = List (ℕ × List ℕ)

abbrev pub redir_file :
    (Redirs → List ℕ → Parsed (Redirs × List ℕ))
    → Redirs
    → ℕ
    → ℕ × List ℕ × List ℕ
    → Parsed (Redirs × List ℕ)
redir_file next rs tok (kind, file, s) =
    if kind == b'a' then next (rs ++ (tok, file) ∷ []) s else panic

unfoldable pub redir_round :
    (Redirs → List ℕ → Parsed (Redirs × List ℕ)) → Redirs → Bool × List ℕ → Parsed (Redirs × List ℕ)
redir_round next rs (found, s) =
    let t = gettoken s in if found then redir_file next rs t.0 (gettoken t.2) else ok (rs, s)

unfoldable pub parseredirs : ℕ → Redirs → List ℕ → Parsed (Redirs × List ℕ)
unfolding redir_round
parseredirs zero rs s = out_of_fuel
parseredirs (suc fuel) rs s =
    redir_round (λ rs' s'. parseredirs fuel rs' s') rs (peek (b'<' ∷ b'>' ∷ []) s)

abbrev pub maxargs : ℕ
maxargs = 10

-- A round of the loop of parseexec, with the words and the redirections so far: with the token, and with what
-- peek found.
abbrev pub args_token :
    (List (List ℕ) → Redirs → List ℕ → Parsed (Cmd × List ℕ))
    → List (List ℕ)
    → Redirs
    → ℕ × List ℕ × List ℕ
    → Parsed (Cmd × List ℕ)
args_token next argv rs (tok, word, s) =
    let argv1 = argv ++ word ∷ [] in
    let more : Parsed (Cmd × List ℕ) =
      parseredirs (length s + 1) rs s >>= λ r. next argv1 r.0 r.1 in
    if tok == 0
    then ok (with_redirs (exec argv) rs, s)
    else if not (tok == b'a')
    then panic
    else if leb maxargs (length argv1)
    then panic
    else more

unfoldable pub args_round :
    (List (List ℕ) → Redirs → List ℕ → Parsed (Cmd × List ℕ))
    → List (List ℕ)
    → Redirs
    → Bool × List ℕ
    → Parsed (Cmd × List ℕ)
args_round next argv rs (found, s) =
    if found then ok (with_redirs (exec argv) rs, s) else args_token next argv rs (gettoken s)

unfoldable pub parse_args : ℕ → List (List ℕ) → Redirs → List ℕ → Parsed (Cmd × List ℕ)
unfolding args_round
parse_args zero argv rs s = out_of_fuel
parse_args (suc fuel) argv rs s =
    args_round (λ argv' rs' s'. parse_args fuel argv' rs' s') argv rs
      (peek (b'|' ∷ b')' ∷ b'&' ∷ b';' ∷ []) s)

-- while(peek(ps, es, "&")) { ... cmd = backcmd(cmd); }
unfoldable pub backs_round :
    (Cmd → List ℕ → Parsed (Cmd × List ℕ)) → Cmd → Bool × List ℕ → Parsed (Cmd × List ℕ)
backs_round next cmd (found, s) = if found then next (back cmd) (gettoken s).2 else ok (cmd, s)

unfoldable pub parse_backs : ℕ → Cmd → List ℕ → Parsed (Cmd × List ℕ)
unfolding backs_round
parse_backs zero cmd s = out_of_fuel
parse_backs (suc fuel) cmd s =
    backs_round (λ cmd' s'. parse_backs fuel cmd' s') cmd (peek (b'&' ∷ []) s)

-- parseexec of a command that is no block.
unfoldable pub parse_simple : List ℕ → Parsed (Cmd × List ℕ)
unfolding parseredirs parse_args
parse_simple s = parseredirs (length s + 1) [] s >>= λ r. parse_args (length r.1 + 1) [] r.0 r.1

-- What follows the line of a block.
unfoldable pub block_end : Cmd → Bool × List ℕ → Parsed (Cmd × List ℕ)
block_end cmd (found, s) =
    let rest = (gettoken s).2 in
    let redirs : Parsed (Cmd × List ℕ) =
      parseredirs (length rest + 1) [] rest >>= λ r. ok (with_redirs cmd r.0, r.1) in
    if found then redirs else panic

unfoldable pub close_block : Cmd × List ℕ → Parsed (Cmd × List ℕ)
unfolding block_end
close_block (cmd, s) = block_end cmd (peek (b')' ∷ []) s)

-- What follows a pipeline with its ampersands, and a part of a pipeline: the tree is joined to that of the
-- rest if the symbol is there.
unfoldable pub join :
    (Cmd → Cmd → Cmd)
    → (List ℕ → Parsed (Cmd × List ℕ))
    → Cmd
    → Bool × List ℕ
    → Parsed (Cmd × List ℕ)
join node next cmd (found, s) =
    let more : Parsed (Cmd × List ℕ) = next (gettoken s).2 >>= λ l. ok (node cmd l.0, l.1) in
    if found then more else ok (cmd, s)

-- What peek for an opening parenthesis found, in parseexec and in parseblock.
unfoldable pub exec_at : (List ℕ → Parsed (Cmd × List ℕ)) → Bool × List ℕ → Parsed (Cmd × List ℕ)
exec_at next (found, s) = if found then next s else parse_simple s

unfoldable pub block_at : (List ℕ → Parsed (Cmd × List ℕ)) → Bool × List ℕ → Parsed (Cmd × List ℕ)
block_at next (found, s) =
    let inner : Parsed (Cmd × List ℕ) = next (gettoken s).2 >>= close_block in
    if found then inner else panic

-- Each call hands the next one a smaller number.
unfoldable mutual
  unfolding join exec_at block_at

  pub parseline : ℕ → List ℕ → Parsed (Cmd × List ℕ)
  parseline zero s = out_of_fuel
  parseline (suc fuel) s = parsepipe fuel s >>= λ r. parse_backs (length r.1 + 1) r.0 r.1 >>= λ b.
      join list (λ s'. parseline fuel s') b.0 (peek (b';' ∷ []) b.1)

  pub parsepipe : ℕ → List ℕ → Parsed (Cmd × List ℕ)
  parsepipe zero s = out_of_fuel
  parsepipe (suc fuel) s =
      parseexec fuel s >>= λ r. join pipe (λ s'. parsepipe fuel s') r.0 (peek (b'|' ∷ []) r.1)

  pub parseexec : ℕ → List ℕ → Parsed (Cmd × List ℕ)
  parseexec zero s = out_of_fuel
  parseexec (suc fuel) s = exec_at (λ s'. parseblock fuel s') (peek (b'(' ∷ []) s)

  pub parseblock : ℕ → List ℕ → Parsed (Cmd × List ℕ)
  parseblock zero s = out_of_fuel
  parseblock (suc fuel) s = block_at (λ s'. parseline fuel s') (peek (b'(' ∷ []) s)

-- The end of parsecmd, where nothing but spaces may be left.
unfoldable pub finish : Cmd × List ℕ → Parsed Cmd
finish (cmd, s) = if length (peek [] s).1 == 0 then ok cmd else panic

unfoldable pub parsecmd : List ℕ → Parsed Cmd
unfolding parseline finish
parsecmd s = parseline (4 * length s + 4) s >>= finish
