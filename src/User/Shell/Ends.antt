-- ===== src/User/Shell/Ends.antt =====
-- The parser of user/sh.c ends: each function leaves no more of its input than it found, and each round of
-- a loop and each call of parseline takes a token off it.
use operationg_systems.Prelude.{
  ℕ, zero, suc, ◌+◌, ◌*◌, ◌≤◌, ◌<◌, ◌≡◌, ◌≢◌, refl, inl, inr, List, [], ◌∷◌, ◌++◌, Bool, true,
  false, not, ◌==◌, leb, if◌then◌else◌, length, arith,
}
use operationg_systems.User.Shell.{
  gettoken, peek, Cmd, list, pipe, back, exec, Parsed, ok, panic, out_of_fuel, ◌>>=◌, with_redirs,
  Redirs, redir_file, redir_round, parseredirs, maxargs, args_token, args_round, parse_args,
  backs_round, parse_backs, parse_simple, block_end, close_block, join, exec_at, block_at,
  parseline, parsepipe, parseexec, parseblock, finish, parsecmd,
}
use operationg_systems.User.Shell.Shorter.{gettoken_less, gettoken_le, found_less, peek_le}

-- A result, or a panic, that leaves n bytes of input at most.
Leaves : {A : Type 0} → ℕ → Parsed (A × List ℕ) → Type 0
Leaves n (ok r) = length r.1 ≤ n
Leaves n panic = Unit {0}
Leaves n out_of_fuel = ⊥

weaker : {A : Type 0} (m n : ℕ) (p : Parsed (A × List ℕ)) → Leaves m p → m ≤ n → Leaves n p
unfolding Leaves
weaker m n (ok r) h le = omega (arith, h, le)
weaker m n panic h le = h
weaker m n out_of_fuel h le = h

chained :
    {A B : Type 0} (m n : ℕ) (p : Parsed (A × List ℕ)) (next : A × List ℕ → Parsed (B × List ℕ))
    → Leaves m p
    → ((a : A) (s : List ℕ) → length s ≤ m → Leaves n (next (a, s)))
    → Leaves n (p >>= next)
unfolding Leaves
chained m n (ok r) next h each = each r.0 r.1 h
chained m n panic next h each = tt
chained m n out_of_fuel next h each = absurd h

chosen :
    {A : Type 0} (n : ℕ) (b : Bool) (p q : Parsed (A × List ℕ))
    → (b ≡ true → Leaves n p)
    → (b ≡ false → Leaves n q)
    → Leaves n (if b then p else q)
chosen n true p q h g = h refl
chosen n false p q h g = g refl

parseredirs-Leaves :
    (fuel : ℕ) (rs : Redirs) (s : List ℕ)
    → length s < fuel
    → Leaves (length s) (parseredirs fuel rs s)
unfolding parseredirs Leaves redir_round
parseredirs-Leaves zero rs s h = absurd (omega (arith, h))
parseredirs-Leaves (suc fuel) rs s h =
    let p = peek (b'<' ∷ b'>' ∷ []) s in
    let t = gettoken p.1 in
    let file = gettoken t.2 in
    chosen (length s) p.0 (redir_file (λ rs' s'. parseredirs fuel rs' s') rs t.0 file)
      (ok (rs, p.1))
      (λ found.
        let less : length file.2 < length s =
          omega (arith, found_less (b'<' ∷ b'>' ∷ []) s found, gettoken_le t.2) in
        chosen (length s) (file.0 == b'a') (parseredirs fuel (rs ++ (t.0, file.1) ∷ []) file.2)
          panic
          (λ word.
            weaker (length file.2) (length s) (parseredirs fuel (rs ++ (t.0, file.1) ∷ []) file.2)
              (parseredirs-Leaves fuel (rs ++ (t.0, file.1) ∷ []) file.2 (omega (arith, less, h)))
              (omega (arith, less)))
          (λ none. tt))
      (λ none. peek_le (b'<' ∷ b'>' ∷ []) s)

parse_args-Leaves :
    (fuel : ℕ) (argv : List (List ℕ)) (rs : Redirs) (s : List ℕ)
    → length s < fuel
    → Leaves (length s) (parse_args fuel argv rs s)
unfolding parse_args Leaves args_round
parse_args-Leaves zero argv rs s h = absurd (omega (arith, h))
parse_args-Leaves (suc fuel) argv rs s h =
    let toks : List ℕ = b'|' ∷ b')' ∷ b'&' ∷ b';' ∷ [] in
    let p = peek toks s in
    let t = gettoken p.1 in
    let n = length s in
    let argv1 = argv ++ t.1 ∷ [] in
    let next : List (List ℕ) → Redirs → List ℕ → Parsed (Cmd × List ℕ) =
      λ argv' rs' s'. parse_args fuel argv' rs' s' in
    let more : Parsed (Cmd × List ℕ) =
      parseredirs (length t.2 + 1) rs t.2 >>= λ r. next argv1 r.0 r.1 in
    let left : length t.2 ≤ n = omega (arith, gettoken_le p.1, peek_le toks s) in
    chosen n p.0 (ok (with_redirs (exec argv) rs, p.1)) (args_token next argv rs t)
      (λ found. peek_le toks s)
      (λ none.
        chosen n (t.0 == 0) (ok (with_redirs (exec argv) rs, t.2))
          (if not (t.0 == b'a') then panic else if leb maxargs (length argv1) then panic else more)
          (λ end. left)
          (λ token.
            chosen n (not (t.0 == b'a')) panic (if leb maxargs (length argv1) then panic else more)
              (λ symbol. tt)
              (λ word.
                chosen n (leb maxargs (length argv1)) panic more (λ many. tt)
                  (λ few.
                    let less : length t.2 < n = elim (gettoken_less p.1) [
                      | inl empty ↦ absurd (ground (arith, empty, token))
                      | inr l ↦ omega (arith, l, peek_le toks s)
                    ] in
                    chained (length t.2) n (parseredirs (length t.2 + 1) rs t.2)
                      (λ r. next argv1 r.0 r.1)
                      (parseredirs-Leaves (length t.2 + 1) rs t.2 (omega arith))
                      (λ rs' s' le.
                        weaker (length s') n (next argv1 rs' s')
                          (parse_args-Leaves fuel argv1 rs' s' (omega (arith, le, less, h)))
                          (omega (arith, le, less)))))))

parse_backs-Leaves :
    (fuel : ℕ) (cmd : Cmd) (s : List ℕ)
    → length s < fuel
    → Leaves (length s) (parse_backs fuel cmd s)
unfolding parse_backs Leaves backs_round
parse_backs-Leaves zero cmd s h = absurd (omega (arith, h))
parse_backs-Leaves (suc fuel) cmd s h =
    let p = peek (b'&' ∷ []) s in
    let t = gettoken p.1 in
    chosen (length s) p.0 (parse_backs fuel (back cmd) t.2) (ok (cmd, p.1))
      (λ found.
        let less = found_less (b'&' ∷ []) s found in
        weaker (length t.2) (length s) (parse_backs fuel (back cmd) t.2)
          (parse_backs-Leaves fuel (back cmd) t.2 (omega (arith, less, h))) (omega (arith, less)))
      (λ none. peek_le (b'&' ∷ []) s)

parse_simple-Leaves : (s : List ℕ) → Leaves (length s) (parse_simple s)
unfolding parse_simple
parse_simple-Leaves s =
    chained (length s) (length s) (parseredirs (length s + 1) [] s)
      (λ r. parse_args (length r.1 + 1) [] r.0 r.1)
      (parseredirs-Leaves (length s + 1) [] s (omega arith))
      (λ rs s' le.
        weaker (length s') (length s) (parse_args (length s' + 1) [] rs s')
          (parse_args-Leaves (length s' + 1) [] rs s' (omega arith)) le)

close_block-Leaves : (cmd : Cmd) (s : List ℕ) → Leaves (length s) (close_block (cmd, s))
unfolding close_block block_end Leaves
close_block-Leaves cmd s =
    let p = peek (b')' ∷ []) s in
    let rest = (gettoken p.1).2 in
    chosen (length s) p.0
      (parseredirs (length rest + 1) [] rest >>= λ r. ok (with_redirs cmd r.0, r.1)) panic
      (λ found.
        chained (length rest) (length s) (parseredirs (length rest + 1) [] rest)
          (λ r. ok (with_redirs cmd r.0, r.1))
          (parseredirs-Leaves (length rest + 1) [] rest (omega arith))
          (λ rs s' le. omega (arith, le, found_less (b')' ∷ []) s found)))
      (λ none. tt)

-- A call on what is behind a symbol.
abbrev LeavesBelow : ℕ → (List ℕ → Parsed (Cmd × List ℕ)) → Type 0
LeavesBelow n next = (s : List ℕ) → length s < n → Leaves (length s) (next s)

join-Leaves :
    (node : Cmd → Cmd → Cmd) (next : List ℕ → Parsed (Cmd × List ℕ)) (cmd : Cmd) (toks s : List ℕ)
    → LeavesBelow (length s) next
    → Leaves (length s) (join node next cmd (peek toks s))
unfolding join Leaves
join-Leaves node next cmd toks s h =
    let p = peek toks s in
    let rest = (gettoken p.1).2 in
    chosen (length s) p.0 (next rest >>= λ l. ok (node cmd l.0, l.1)) (ok (cmd, p.1))
      (λ found.
        let less = found_less toks s found in
        chained (length rest) (length s) (next rest) (λ l. ok (node cmd l.0, l.1)) (h rest less)
          (λ other s' le. omega (arith, le, less)))
      (λ none. peek_le toks s)

block_at-Leaves :
    (next : List ℕ → Parsed (Cmd × List ℕ)) (s : List ℕ)
    → LeavesBelow (length s) next
    → Leaves (length s) (block_at next (peek (b'(' ∷ []) s))
unfolding block_at Leaves
block_at-Leaves next s h =
    let p = peek (b'(' ∷ []) s in
    let rest = (gettoken p.1).2 in
    chosen (length s) p.0 (next rest >>= close_block) panic
      (λ found.
        let less = found_less (b'(' ∷ []) s found in
        chained (length rest) (length s) (next rest) close_block (h rest less) (λ cmd s' le.
          weaker (length s') (length s) (close_block (cmd, s')) (close_block-Leaves cmd s')
            (omega (arith, le, less))))
      (λ none. tt)

-- The calls inside each other, with the fuel that each wants.
calls-Leave :
    (fuel : ℕ) (s : List ℕ)
    → (4 * length s + 4 ≤ fuel → Leaves (length s) (parseline fuel s))
      × (4 * length s + 3 ≤ fuel → Leaves (length s) (parsepipe fuel s))
      × (4 * length s + 2 ≤ fuel → Leaves (length s) (parseexec fuel s))
      × (4 * length s + 1 ≤ fuel → Leaves (length s) (parseblock fuel s))
unfolding parseline exec_at
calls-Leave zero s = (
  λ h. absurd (omega (arith, h)),
  λ h. absurd (omega (arith, h)),
  λ h. absurd (omega (arith, h)),
  λ h. absurd (omega (arith, h)),
)
calls-Leave (suc fuel) s =
    let n = length s in
    let line : 4 * n + 4 ≤ suc fuel → Leaves n (parseline (suc fuel) s) = λ h.
      chained n n (parsepipe fuel s)
        (λ r. parse_backs (length r.1 + 1) r.0 r.1 >>= λ b.
          join list (λ s'. parseline fuel s') b.0 (peek (b';' ∷ []) b.1))
        ((calls-Leave fuel s).1 (omega (arith, h)))
        (λ cmd t le.
          chained (length t) n (parse_backs (length t + 1) cmd t)
            (λ b. join list (λ s'. parseline fuel s') b.0 (peek (b';' ∷ []) b.1))
            (parse_backs-Leaves (length t + 1) cmd t (omega arith))
            (λ cmd' u le'.
              weaker (length u) n (join list (λ s'. parseline fuel s') cmd' (peek (b';' ∷ []) u))
                (join-Leaves list (λ s'. parseline fuel s') cmd' (b';' ∷ []) u
                  (λ v less. (calls-Leave fuel v).0 (omega (arith, h, le, le', less))))
                (omega (arith, le, le')))) in
    let part : 4 * n + 3 ≤ suc fuel → Leaves n (parsepipe (suc fuel) s) = λ h.
      chained n n (parseexec fuel s)
        (λ r. join pipe (λ s'. parsepipe fuel s') r.0 (peek (b'|' ∷ []) r.1))
        ((calls-Leave fuel s).2 (omega (arith, h)))
        (λ cmd t le.
          weaker (length t) n (join pipe (λ s'. parsepipe fuel s') cmd (peek (b'|' ∷ []) t))
            (join-Leaves pipe (λ s'. parsepipe fuel s') cmd (b'|' ∷ []) t
              (λ v less. (calls-Leave fuel v).1 (omega (arith, h, le, less))))
            le) in
    let one : 4 * n + 2 ≤ suc fuel → Leaves n (parseexec (suc fuel) s) = λ h.
      let p = peek (b'(' ∷ []) s in
      let le = peek_le (b'(' ∷ []) s in
      chosen n p.0 (parseblock fuel p.1) (parse_simple p.1)
        (λ found.
          weaker (length p.1) n (parseblock fuel p.1)
            ((calls-Leave fuel p.1).3 (omega (arith, h, le))) le)
        (λ none. weaker (length p.1) n (parse_simple p.1) (parse_simple-Leaves p.1) le) in
    (
      line,
      part,
      one,
      λ h.
          block_at-Leaves (λ s'. parseline fuel s') s
            (λ v less. (calls-Leave fuel v).0 (omega (arith, h, less))),
    )

chosen_ends : (b : Bool) (cmd : Cmd) → (if b then ok cmd else panic) ≢ out_of_fuel
chosen_ends true cmd e = absurd (cc)
chosen_ends false cmd e = absurd (cc)

no_fuel : (r : Parsed (Cmd × List ℕ)) (n : ℕ) → Leaves n r → r >>= finish ≢ out_of_fuel
unfolding Leaves finish
no_fuel (ok r) n h e = chosen_ends (length (peek [] r.1).1 == 0) r.0 e
no_fuel panic n h e = absurd (cc)
no_fuel out_of_fuel n h e = h

-- parsecmd ends for every input, with a tree or a panic: the rounds that its loops and its calls inside each
-- other are given are enough.
pub parsecmd_ends : (s : List ℕ) → parsecmd s ≢ out_of_fuel
unfolding parsecmd
parsecmd_ends s =
    no_fuel (parseline (4 * length s + 4) s) (length s)
      ((calls-Leave (4 * length s + 4) s).0 (omega arith))
