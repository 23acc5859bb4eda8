-- ===== src/User/Shell/Words.antt =====
-- parseredirs, the loop of parseexec and that of the ampersands in user/sh.c, on what the grammar prints.
use operationg_systems.Prelude.{
  ℕ, zero, suc, ◌+◌, ◌<◌, ◌≤◌, ◌≡◌, refl, ap, sym, subst, ◌∙◌, List, [], ◌∷◌, ◌++◌, true, false,
  leb, length, length-append, arith,
}
use mathlib.Core.List.{append_assoc, append-nil}
use operationg_systems.User.Shell.{
  is_in, is_space, symbols, gettoken, head_in, Cmd, exec, Parsed, ok, ◌>>=◌, Redirs, redir_file,
  redir_round, args_token, args_round, with_redirs, parseredirs, parse_args,
}
use operationg_systems.User.Shell.Syntax.{
  Direction, from, to, append, Redir, Arg, op, print_redirs, print_args, print_backs, words_of,
  redirs_of, HaveFiles, AreArgs,
}
use operationg_systems.User.Shell.Lexer.{
  IsTrim, peek-IsTrim, IsGap, gettoken-symbol, gettoken-word, gettoken-greater,
}
use operationg_systems.User.Shell.Stops.{
  token_of, tokens, word-IsTrim, word_head, op-IsTrim, op_head, stops, Stops, stops-symbols,
  Stops-no_redir, tokens-append, word_pos, op_pos, redirs-symbols, args_end,
}

module _ (gap : List ℕ) (g : IsGap gap) where
  op-gettoken :
      (way : Direction) (s : List ℕ)
      → IsTrim s
      → (word : List ℕ) × (gettoken (op way ++ (gap ++ s)) ≡ (token_of way, word, s))
  op-gettoken from s h = (b'<' ∷ [], gettoken-symbol gap s b'<' g h refl)
  op-gettoken to s h = (b'>' ∷ [], (gettoken-greater gap s g h).0)
  op-gettoken append s h = (b'>' ∷ b'>' ∷ [], (gettoken-greater gap s g h).1)

  redir_split :
      (r : Redir) (rs : List Redir) (s : List ℕ)
      → print_redirs gap (r ∷ rs) ++ s
        ≡ op r.way ++ (gap ++ (r.file ++ (gap ++ (print_redirs gap rs ++ s))))
  redir_split r rs s = simp append_assoc

  pub print_redirs-IsTrim :
      (rs : List Redir) (s : List ℕ) → IsTrim s → IsTrim (print_redirs gap rs ++ s)
  print_redirs-IsTrim [] s h = h
  print_redirs-IsTrim (r ∷ rs) s h =
      subst IsTrim (sym (redir_split r rs s))
        (op-IsTrim r.way (gap ++ (r.file ++ (gap ++ (print_redirs gap rs ++ s)))))

  pub parseredirs-print :
      (fuel : ℕ) (rs : List Redir) (done : List (ℕ × List ℕ)) (s : List ℕ)
      → length rs < fuel
      → HaveFiles rs
      → IsTrim s
      → head_in (b'<' ∷ b'>' ∷ []) s ≡ false
      → parseredirs fuel done (print_redirs gap rs ++ s) ≡ ok (done ++ tokens rs, s)
  unfolding parseredirs
  parseredirs-print zero rs done s n h t e = absurd (omega arith)
  parseredirs-print (suc fuel) [] done s n h t e =
      ap (redir_round (λ rs' s'. parseredirs fuel rs' s') done)
        (peek-IsTrim (b'<' ∷ b'>' ∷ []) s t ∙ ap (λ b. (b, s)) e)
      ∙ ap (λ l. ok (l, s)) (sym (append-nil done))
  parseredirs-print (suc fuel) (r ∷ rs) done s n h t e =
      let next : Redirs → List ℕ → Parsed (Redirs × List ℕ) = λ rs' s'. parseredirs fuel rs' s' in
      let rest = print_redirs gap rs ++ s in
      let behind = r.file ++ (gap ++ rest) in
      let all = op r.way ++ (gap ++ behind) in
      let trim = print_redirs-IsTrim rs s t in
      let symbol = op-gettoken r.way behind (word-IsTrim r.file (gap ++ rest) h.0) in
      let tok = token_of r.way in
      ap (λ l. parseredirs (suc fuel) done l) (redir_split r rs s)
      ∙ ap (redir_round next done) (
          peek-IsTrim (b'<' ∷ b'>' ∷ []) all (op-IsTrim r.way (gap ++ behind))
          ∙ ap (λ b. (b, all)) (op_head r.way (gap ++ behind)))
      ∙ ap (λ u. redir_file next done u.0 (gettoken u.2)) symbol.1
      ∙ ap (redir_file next done tok) (gettoken-word gap r.file rest g h.0 trim)
      ∙ parseredirs-print fuel rs (done ++ (tok, r.file) ∷ []) s (omega arith) h.1 t e
      ∙ ap (λ l. ok (l, s)) (append_assoc done ((tok, r.file) ∷ []) (tokens rs))

  -- The rounds of parseredirs are enough.
  pub length-print_redirs :
      (rs : List Redir) (s : List ℕ) → length rs ≤ length (print_redirs gap rs ++ s)
  length-print_redirs [] s = omega arith
  length-print_redirs (r ∷ rs) s =
      let rest = print_redirs gap rs ++ s in
      omega (
        arith,
        ap length (redir_split r rs s),
        length-append (op r.way) (gap ++ (r.file ++ (gap ++ rest))),
        length-append gap (r.file ++ (gap ++ rest)),
        length-append r.file (gap ++ rest),
        length-append gap rest,
        length-print_redirs rs s,
        op_pos r.way,
      )

  args_split :
      (a : Arg) (args : List Arg) (s : List ℕ)
      → print_args gap (a ∷ args) ++ s
        ≡ a.word ++ (gap ++ (print_redirs gap a.redirs ++ (print_args gap args ++ s)))
  args_split a args s = simp append_assoc

  pub print_args-IsTrim :
      (args : List Arg) (s : List ℕ) → AreArgs args → IsTrim s → IsTrim (print_args gap args ++ s)
  print_args-IsTrim [] s h t = t
  print_args-IsTrim (a ∷ args) s h t =
      subst IsTrim (sym (args_split a args s))
        (word-IsTrim a.word (gap ++ (print_redirs gap a.redirs ++ (print_args gap args ++ s))) h.0)

  pub print_args_head :
      (toks : List ℕ) (args : List Arg) (s : List ℕ)
      → AreArgs args
      → ((c : ℕ) → is_in c toks ≡ true → is_in c symbols ≡ true)
      → head_in toks s ≡ false
      → head_in toks (print_args gap args ++ s) ≡ false
  print_args_head toks [] s h f e = e
  print_args_head toks (a ∷ args) s h f e =
      ap (head_in toks) (args_split a args s)
      ∙ word_head toks a.word (gap ++ (print_redirs gap a.redirs ++ (print_args gap args ++ s))) h.0
          f

  pub parse_args-print :
      (fuel : ℕ) (args : List Arg) (argv : List (List ℕ)) (rs : Redirs) (s : List ℕ)
      → length args < fuel
      → length argv + length args < 10
      → AreArgs args
      → IsTrim s
      → Stops s
      → parse_args fuel argv rs (print_args gap args ++ s)
        ≡ ok (with_redirs (exec (argv ++ words_of args)) (rs ++ tokens (redirs_of args)), s)
  unfolding parse_args
  parse_args-print zero args argv rs s n few h t stop = absurd (omega arith)
  parse_args-print (suc fuel) [] argv rs s n few h t stop =
      args_end (λ argv' rs' s'. parse_args fuel argv' rs' s') argv rs s t stop
      ∙ ap (λ l. ok (with_redirs (exec l) rs, s)) (sym (append-nil argv))
      ∙ ap (λ l. ok (with_redirs (exec (argv ++ [])) l, s)) (sym (append-nil rs))
  parse_args-print (suc fuel) (a ∷ args) argv rs s n few h t stop =
      let next : List (List ℕ) → Redirs → List ℕ → Parsed (Cmd × List ℕ) =
        λ argv' rs' s'. parse_args fuel argv' rs' s' in
      let rest = print_args gap args ++ s in
      let behind = print_redirs gap a.redirs ++ rest in
      let all = a.word ++ (gap ++ behind) in
      let trim = print_args-IsTrim args s h.2 t in
      let argv1 = argv ++ a.word ∷ [] in
      let room : leb 10 (length argv1) ≡ false = ground (arith, length-append argv (a.word ∷ [])) in
      ap (λ l. parse_args (suc fuel) argv rs l) (args_split a args s)
      ∙ ap (args_round next argv rs) (
          peek-IsTrim stops all (word-IsTrim a.word (gap ++ behind) h.0)
          ∙ ap (λ b. (b, all)) (word_head stops a.word (gap ++ behind) h.0 stops-symbols))
      ∙ ap (args_token next argv rs)
          (gettoken-word gap a.word behind g h.0 (print_redirs-IsTrim a.redirs rest trim))
      ∙ rw room (
          ap (λ p. p >>= λ r. next argv1 r.0 r.1)
            (parseredirs-print (length behind + 1) a.redirs rs rest
              (omega (arith, length-print_redirs a.redirs rest)) h.1 trim
              (print_args_head (b'<' ∷ b'>' ∷ []) args s h.2 redirs-symbols
                (Stops-no_redir s stop)))
          ∙ parse_args-print fuel args argv1 (rs ++ tokens a.redirs) s (omega arith)
              (omega (arith, length-append argv (a.word ∷ []))) h.2 t stop
          ∙ ap
              (λ l.
                ok (with_redirs (exec l) ((rs ++ tokens a.redirs) ++ tokens (redirs_of args)), s))
              (append_assoc argv (a.word ∷ []) (words_of args))
          ∙ ap (λ l. ok (with_redirs (exec (argv ++ a.word ∷ words_of args)) l, s))
              (append_assoc rs (tokens a.redirs) (tokens (redirs_of args))
                ∙ ap (λ l. rs ++ l) (sym (tokens-append a.redirs (redirs_of args)))))

  pub print_backs-IsTrim : (n : ℕ) (s : List ℕ) → IsTrim s → IsTrim (print_backs gap n ++ s)
  unfolding is_space
  print_backs-IsTrim zero s t = t
  print_backs-IsTrim (suc n) s t = refl

  -- The rounds of parse_args are enough.
  pub length-print_args :
      (args : List Arg) (s : List ℕ)
      → AreArgs args
      → length args ≤ length (print_args gap args ++ s)
  length-print_args [] s h = omega arith
  length-print_args (a ∷ args) s h =
      let rest = print_args gap args ++ s in
      let behind = print_redirs gap a.redirs ++ rest in
      omega (
        arith,
        ap length (args_split a args s),
        length-append a.word (gap ++ behind),
        length-append gap behind,
        length-append (print_redirs gap a.redirs) rest,
        length-print_args args s h.2,
        word_pos a.word h.0,
      )
