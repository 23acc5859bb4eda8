-- ===== src/User/Shell/RoundTrip.antt =====
-- parsecmd of user/sh.c reads every sentence of the grammar as the command that it stands for.
use operationg_systems.Prelude.{
  ℕ, zero, suc, ◌+◌, ◌*◌, ◌<◌, ◌≤◌, ◌≡◌, refl, ap, sym, subst, ◌∙◌, inl, inr, List, [], ◌∷◌, ◌++◌,
  true, false, ◌==◌, if◌then◌else◌, length, length-append, arith,
}
use mathlib.Core.List.{append_assoc, append-nil}
use operationg_systems.User.Shell.{
  is_in, is_space, symbols, head_in, peek, Cmd, exec, pipe, list, Parsed, ok, panic, ◌>>=◌,
  with_redirs, parseredirs, parse_args, backs_round, parse_backs, back, parse_simple, block_end,
  close_block, join, exec_at, block_at, parseline, parsepipe, parseexec, parseblock, finish,
  parsecmd,
}
use operationg_systems.User.Shell.Syntax.{
  Line, Pipeline, Part, last, seq, single, piped, simple, block, Direction, from, to, append, op,
  Redir, Arg, print_redirs, print_args, print_backs, print_line, print_pipeline, print_part,
  redirect_all, words_of, redirs_of, in_back, line_cmd, pipeline_cmd, part_cmd, HaveFiles, AreArgs,
  IsLine, IsPipeline, IsPart,
}
use operationg_systems.User.Shell.Lexer.{IsTrim, peek-IsTrim, IsGap, gettoken-symbol}
use operationg_systems.User.Shell.Stops.{
  stops, Stops, Stops-IsTrim, tokens, tokens-append, with_redirs-tokens, redirs-symbols,
  Stops-no_redir,
}
use operationg_systems.User.Shell.Words.{
  print_redirs-IsTrim, parseredirs-print, length-print_redirs, print_args-IsTrim, print_args_head,
  parse_args-print, print_backs-IsTrim, length-print_args,
}

-- What may stand behind a pipeline, and behind a line.
abbrev pub BehindPipeline : List ℕ → Type 0
BehindPipeline s = Stops s × (head_in (b'|' ∷ []) s ≡ false)

abbrev pub BehindLine : List ℕ → Type 0
BehindLine s = Stops s × (head_in (b'|' ∷ b'&' ∷ b';' ∷ []) s ≡ false)

trim : (c : ℕ) (s : List ℕ) → is_in c stops ≡ true → IsTrim (c ∷ s)
trim c s e = Stops-IsTrim (c ∷ s) (inl e)

-- The calls that a tree takes, one inside the other.
mutual
  cost_line : Line → ℕ
  cost_line (last p n) = suc (cost_pipeline p)
  cost_line (seq p n l) = suc (cost_pipeline p + cost_line l)

  cost_pipeline : Pipeline → ℕ
  cost_pipeline (single p) = suc (cost_part p)
  cost_pipeline (piped p q) = suc (cost_part p + cost_pipeline q)

  cost_part : Part → ℕ
  cost_part (simple rs args) = 1
  cost_part (block l rs) = suc (suc (cost_line l))

paren_symbol : (c : ℕ) → is_in c (b'(' ∷ []) ≡ true → is_in c symbols ≡ true
paren_symbol c h = ground (arith, h)

no_paren : (s : List ℕ) → Stops s → head_in (b'(' ∷ []) s ≡ false
no_paren [] stop = refl
no_paren (c ∷ s) (inl e) = ground (arith, e)
no_paren (c ∷ s) (inr e) = absurd (cc)

module _ (gap : List ℕ) (g : IsGap gap) where
  parse_backs-print :
      (fuel n : ℕ) (cmd : Cmd) (s : List ℕ)
      → n < fuel
      → IsTrim s
      → head_in (b'&' ∷ []) s ≡ false
      → parse_backs fuel cmd (print_backs gap n ++ s) ≡ ok (in_back n cmd, s)
  unfolding parse_backs
  parse_backs-print zero n cmd s h t e = absurd (omega arith)
  parse_backs-print (suc fuel) zero cmd s h t e =
      ap (backs_round (λ cmd' s'. parse_backs fuel cmd' s') cmd)
        (peek-IsTrim (b'&' ∷ []) s t ∙ ap (λ b. (b, s)) e)
  parse_backs-print (suc fuel) (suc n) cmd s h t e =
      let next : Cmd → List ℕ → Parsed (Cmd × List ℕ) = λ cmd' s'. parse_backs fuel cmd' s' in
      let rest = print_backs gap n ++ s in
      ap (λ l. parse_backs (suc fuel) cmd (b'&' ∷ l)) (append_assoc gap (print_backs gap n) s)
      ∙ ap (backs_round next cmd)
          (peek-IsTrim (b'&' ∷ []) (b'&' ∷ (gap ++ rest)) (trim b'&' (gap ++ rest) refl))
      ∙ ap (λ u. next (back cmd) u.2)
          (gettoken-symbol gap rest b'&' g (print_backs-IsTrim gap g n s t) refl)
      ∙ parse_backs-print fuel n (back cmd) s (omega arith) t e

  parse_simple-print :
      (rs : List Redir) (args : List Arg) (s : List ℕ)
      → HaveFiles rs
      → AreArgs args
      → length args < 10
      → Stops s
      → parse_simple (print_redirs gap rs ++ (print_args gap args ++ s))
        ≡ ok (redirect_all (exec (words_of args)) (rs ++ redirs_of args), s)
  unfolding parse_simple
  parse_simple-print rs args s h a few stop =
      let rest = print_args gap args ++ s in
      let t = Stops-IsTrim s stop in
      let no_redir =
        print_args_head gap g (b'<' ∷ b'>' ∷ []) args s a redirs-symbols (Stops-no_redir s stop) in
      ap (λ p. p >>= λ r. parse_args (length r.1 + 1) [] r.0 r.1)
        (parseredirs-print gap g (length (print_redirs gap rs ++ rest) + 1) rs [] rest
          (omega (arith, length-print_redirs gap g rs rest)) h (print_args-IsTrim gap g args s a t)
          no_redir)
      ∙ parse_args-print gap g (length rest + 1) args [] (tokens rs) s
          (omega (arith, length-print_args gap g args s a)) (omega arith) a t stop
      ∙ ap (λ l. ok (with_redirs (exec (words_of args)) l, s))
          (sym (tokens-append rs (redirs_of args)))
      ∙ ap (λ c. ok (c, s)) (with_redirs-tokens (exec (words_of args)) (rs ++ redirs_of args))

  -- What is printed, with what stands behind it, split at the first part.
  last_split :
      (p : Pipeline) (n : ℕ) (s : List ℕ)
      → print_line gap (last p n) ++ s ≡ print_pipeline gap p ++ (print_backs gap n ++ s)
  unfolding print_line
  last_split p n s = simp append_assoc

  seq_split :
      (p : Pipeline) (n : ℕ) (l : Line) (s : List ℕ)
      → print_line gap (seq p n l) ++ s
        ≡ print_pipeline gap p ++ (print_backs gap n ++ b';' ∷ (gap ++ (print_line gap l ++ s)))
  unfolding print_line
  seq_split p n l s = simp append_assoc

  piped_split :
      (p : Part) (q : Pipeline) (s : List ℕ)
      → print_pipeline gap (piped p q) ++ s
        ≡ print_part gap p ++ b'|' ∷ (gap ++ (print_pipeline gap q ++ s))
  unfolding print_line
  piped_split p q s = simp append_assoc

  single_split :
      (p : Part) (s : List ℕ) → print_pipeline gap (single p) ++ s ≡ print_part gap p ++ s
  unfolding print_line
  single_split p s = refl

  simple_split :
      (rs : List Redir) (args : List Arg) (s : List ℕ)
      → print_part gap (simple rs args) ++ s ≡ print_redirs gap rs ++ (print_args gap args ++ s)
  unfolding print_line
  simple_split rs args s = simp append_assoc

  block_split :
      (l : Line) (rs : List Redir) (s : List ℕ)
      → print_part gap (block l rs) ++ s
        ≡ b'(' ∷ (gap ++ (print_line gap l ++ b')' ∷ (gap ++ (print_redirs gap rs ++ s))))
  unfolding print_line
  block_split l rs s = simp append_assoc

  paren-IsTrim : (s : List ℕ) → IsTrim (b'(' ∷ s)
  unfolding is_space
  paren-IsTrim s = refl

  mutual
    unfolding IsLine

    line-IsTrim : (l : Line) (s : List ℕ) → IsLine l → IsTrim s → IsTrim (print_line gap l ++ s)
    line-IsTrim (last p n) s h t =
        subst IsTrim (sym (last_split p n s))
          (pipeline-IsTrim p (print_backs gap n ++ s) h (print_backs-IsTrim gap g n s t))
    line-IsTrim (seq p n l) s h t =
        let rest = b';' ∷ (gap ++ (print_line gap l ++ s)) in
        subst IsTrim (sym (seq_split p n l s)) (
          pipeline-IsTrim p (print_backs gap n ++ rest) h.0
            (print_backs-IsTrim gap g n rest (trim b';' (gap ++ (print_line gap l ++ s)) refl)))

    pipeline-IsTrim :
        (p : Pipeline) (s : List ℕ) → IsPipeline p → IsTrim s → IsTrim (print_pipeline gap p ++ s)
    pipeline-IsTrim (single p) s h t = subst IsTrim (sym (single_split p s)) (part-IsTrim p s h t)
    pipeline-IsTrim (piped p q) s h t =
        let rest = gap ++ (print_pipeline gap q ++ s) in
        subst IsTrim (sym (piped_split p q s))
          (part-IsTrim p (b'|' ∷ rest) h.0 (trim b'|' rest refl))

    part-IsTrim : (p : Part) (s : List ℕ) → IsPart p → IsTrim s → IsTrim (print_part gap p ++ s)
    part-IsTrim (simple rs args) s h t = subst IsTrim (sym (simple_split rs args s)) (
        print_redirs-IsTrim gap g rs (print_args gap args ++ s)
          (print_args-IsTrim gap g args s h.1 t))
    part-IsTrim (block l rs) s h t =
        subst IsTrim (sym (block_split l rs s))
          (paren-IsTrim (gap ++ (print_line gap l ++ b')' ∷ (gap ++ (print_redirs gap rs ++ s)))))

  backs_behind : (n : ℕ) (s : List ℕ) → BehindPipeline s → BehindPipeline (print_backs gap n ++ s)
  backs_behind zero s h = h
  backs_behind (suc n) s h = (inl refl, refl)

  length-print_backs : (n : ℕ) (s : List ℕ) → n ≤ length (print_backs gap n ++ s)
  length-print_backs zero s = omega arith
  length-print_backs (suc n) s = omega (
    arith,
    length-print_backs n s,
    length-append (gap ++ print_backs gap n) s,
    length-append gap (print_backs gap n),
    length-append (print_backs gap n) s,
  )

  no_symbol :
      (s : List ℕ)
      → head_in (b'|' ∷ b'&' ∷ b';' ∷ []) s ≡ false
      → (head_in (b'|' ∷ []) s ≡ false)
        × (head_in (b'&' ∷ []) s ≡ false)
        × (head_in (b';' ∷ []) s ≡ false)
  no_symbol [] h = (refl, refl, refl)
  no_symbol (c ∷ s) h = ground (arith, h)

  -- What follows a tree: nothing that goes on with it, or a symbol and the rest.
  join_end :
      (node : Cmd → Cmd → Cmd) (next : List ℕ → Parsed (Cmd × List ℕ)) (cmd : Cmd) (toks s : List ℕ)
      → IsTrim s
      → head_in toks s ≡ false
      → join node next cmd (peek toks s) ≡ ok (cmd, s)
  unfolding join
  join_end node next cmd toks s t e =
      ap (join node next cmd) (peek-IsTrim toks s t ∙ ap (λ b. (b, s)) e)

  join_more :
      (node : Cmd → Cmd → Cmd) (next : List ℕ → Parsed (Cmd × List ℕ)) (cmd more : Cmd) (c : ℕ)
      (s s' : List ℕ)
      → is_in c stops ≡ true
      → is_in c (c ∷ []) ≡ true
      → IsTrim s
      → next s ≡ ok (more, s')
      → join node next cmd (peek (c ∷ []) (c ∷ (gap ++ s))) ≡ ok (node cmd more, s')
  unfolding join
  join_more node next cmd more c s s' e i t r =
      ap (join node next cmd) (peek-IsTrim (c ∷ []) (c ∷ (gap ++ s)) (trim c (gap ++ s) e))
      ∙ ap (λ b. join node next cmd (b, c ∷ (gap ++ s))) i
      ∙ ap (λ u. next u.2 >>= λ l. ok (node cmd l.0, l.1))
          (gettoken-symbol gap s c g t (ground (arith, e)))
      ∙ ap (λ u. u >>= λ l. ok (node cmd l.0, l.1)) r

  block_end-print :
      (cmd : Cmd) (rs : List Redir) (s : List ℕ)
      → HaveFiles rs
      → Stops s
      → close_block (cmd, b')' ∷ (gap ++ (print_redirs gap rs ++ s))) ≡ ok (redirect_all cmd rs, s)
  unfolding close_block
  block_end-print cmd rs s h stop =
      let rest = print_redirs gap rs ++ s in
      let t = Stops-IsTrim s stop in
      let redirs : List ℕ → Parsed (Cmd × List ℕ) =
        λ l. parseredirs (length l + 1) [] l >>= λ r. ok (with_redirs cmd r.0, r.1) in
      ap (block_end cmd)
        (peek-IsTrim (b')' ∷ []) (b')' ∷ (gap ++ rest)) (trim b')' (gap ++ rest) refl))
      ∙ ap (λ u. redirs u.2)
          (gettoken-symbol gap rest b')' g (print_redirs-IsTrim gap g rs s t) refl)
      ∙ ap (λ p. p >>= λ r. ok (with_redirs cmd r.0, r.1))
          (parseredirs-print gap g (length rest + 1) rs [] s
            (omega (arith, length-print_redirs gap g rs s)) h t (Stops-no_redir s stop))
      ∙ ap (λ c. ok (c, s)) (with_redirs-tokens cmd rs)

  simple_no_paren :
      (rs : List Redir) (args : List Arg) (s : List ℕ)
      → AreArgs args
      → Stops s
      → head_in (b'(' ∷ []) (print_redirs gap rs ++ (print_args gap args ++ s)) ≡ false
  simple_no_paren [] args s a stop =
      print_args_head gap g (b'(' ∷ []) args s a (λ c h. paren_symbol c h) (no_paren s stop)
  simple_no_paren (r ∷ rs) args s a stop = op_no_paren r.way
    where
      op_no_paren :
          (way : Direction)
          → head_in (b'(' ∷ []) (
              (op way ++ (gap ++ (r.file ++ (gap ++ print_redirs gap rs))))
              ++ (print_args gap args ++ s))
            ≡ false
      op_no_paren from = refl
      op_no_paren to = refl
      op_no_paren append = refl

  -- With enough fuel each call reads its tree off the front of the input.
  mutual
    unfolding parseline IsLine line_cmd cost_line

    parseline-print :
        (l : Line) (fuel : ℕ) (s : List ℕ)
        → cost_line l < fuel
        → IsLine l
        → BehindLine s
        → parseline fuel (print_line gap l ++ s) ≡ ok (line_cmd l, s)
    parseline-print l zero s n h b = absurd (omega arith)
    parseline-print (last p n) (suc fuel) s c h b =
        let nots = no_symbol s b.1 in
        let t = Stops-IsTrim s b.0 in
        let text = print_backs gap n ++ s in
        let next : List ℕ → Parsed (Cmd × List ℕ) = λ s'. parseline fuel s' in
        let tail : Cmd × List ℕ → Parsed (Cmd × List ℕ) =
          λ r. join list next r.0 (peek (b';' ∷ []) r.1) in
        ap (parseline (suc fuel)) (last_split p n s)
        ∙ ap (λ q. q >>= λ r. parse_backs (length r.1 + 1) r.0 r.1 >>= tail)
            (parsepipe-print p fuel text (omega arith) h (backs_behind n s (b.0, nots.0)))
        ∙ ap (λ q. q >>= tail)
            (parse_backs-print (length text + 1) n (pipeline_cmd p) s
              (omega (arith, length-print_backs n s)) t nots.1)
        ∙ join_end list next (in_back n (pipeline_cmd p)) (b';' ∷ []) s t nots.2
    parseline-print (seq p n l) (suc fuel) s c h b =
        let rest = print_line gap l ++ s in
        let semi = b';' ∷ (gap ++ rest) in
        let text = print_backs gap n ++ semi in
        let next : List ℕ → Parsed (Cmd × List ℕ) = λ s'. parseline fuel s' in
        let tail : Cmd × List ℕ → Parsed (Cmd × List ℕ) =
          λ r. join list next r.0 (peek (b';' ∷ []) r.1) in
        ap (parseline (suc fuel)) (seq_split p n l s)
        ∙ ap (λ q. q >>= λ r. parse_backs (length r.1 + 1) r.0 r.1 >>= tail)
            (parsepipe-print p fuel text (omega arith) h.0 (backs_behind n semi (inl refl, refl)))
        ∙ ap (λ q. q >>= tail)
            (parse_backs-print (length text + 1) n (pipeline_cmd p) semi
              (omega (arith, length-print_backs n semi)) (trim b';' (gap ++ rest) refl) refl)
        ∙ join_more list next (in_back n (pipeline_cmd p)) (line_cmd l) b';' rest s refl refl
            (line-IsTrim l s h.1 (Stops-IsTrim s b.0))
            (parseline-print l fuel s (omega arith) h.1 b)

    parsepipe-print :
        (p : Pipeline) (fuel : ℕ) (s : List ℕ)
        → cost_pipeline p < fuel
        → IsPipeline p
        → BehindPipeline s
        → parsepipe fuel (print_pipeline gap p ++ s) ≡ ok (pipeline_cmd p, s)
    parsepipe-print p zero s n h b = absurd (omega arith)
    parsepipe-print (single p) (suc fuel) s c h b =
        let next : List ℕ → Parsed (Cmd × List ℕ) = λ s'. parsepipe fuel s' in
        ap (parsepipe (suc fuel)) (single_split p s)
        ∙ ap (λ q. q >>= λ r. join pipe next r.0 (peek (b'|' ∷ []) r.1))
            (parseexec-print p fuel s (omega arith) h b.0)
        ∙ join_end pipe next (part_cmd p) (b'|' ∷ []) s (Stops-IsTrim s b.0) b.1
    parsepipe-print (piped p q) (suc fuel) s c h b =
        let rest = print_pipeline gap q ++ s in
        let next : List ℕ → Parsed (Cmd × List ℕ) = λ s'. parsepipe fuel s' in
        ap (parsepipe (suc fuel)) (piped_split p q s)
        ∙ ap (λ u. u >>= λ r. join pipe next r.0 (peek (b'|' ∷ []) r.1))
            (parseexec-print p fuel (b'|' ∷ (gap ++ rest)) (omega arith) h.0 (inl refl))
        ∙ join_more pipe next (part_cmd p) (pipeline_cmd q) b'|' rest s refl refl
            (pipeline-IsTrim q s h.1 (Stops-IsTrim s b.0))
            (parsepipe-print q fuel s (omega arith) h.1 b)

    parseexec-print :
        (p : Part) (fuel : ℕ) (s : List ℕ)
        → cost_part p < fuel
        → IsPart p
        → Stops s
        → parseexec fuel (print_part gap p ++ s) ≡ ok (part_cmd p, s)
    parseexec-print p zero s n h b = absurd (omega arith)
    parseexec-print (simple rs args) (suc fuel) s c h b =
        let all = print_redirs gap rs ++ (print_args gap args ++ s) in
        let t =
          print_redirs-IsTrim gap g rs (print_args gap args ++ s)
            (print_args-IsTrim gap g args s h.1 (Stops-IsTrim s b)) in
        ap (parseexec (suc fuel)) (simple_split rs args s)
        ∙ ap (exec_at (λ s'. parseblock fuel s'))
            (peek-IsTrim (b'(' ∷ []) all t ∙ ap (λ f. (f, all)) (simple_no_paren rs args s h.1 b))
        ∙ parse_simple-print rs args s h.0 h.1 h.2 b
    parseexec-print (block l rs) (suc zero) s c h b = absurd (omega arith)
    parseexec-print (block l rs) (suc (suc fuel)) s c h b =
        let close = b')' ∷ (gap ++ (print_redirs gap rs ++ s)) in
        let inner = print_line gap l ++ close in
        let all = b'(' ∷ (gap ++ inner) in
        let found = peek-IsTrim (b'(' ∷ []) all (paren-IsTrim (gap ++ inner)) in
        let next : List ℕ → Parsed (Cmd × List ℕ) = λ s'. parseline fuel s' in
        ap (parseexec (suc (suc fuel))) (block_split l rs s)
        ∙ ap (exec_at (λ s'. parseblock (suc fuel) s')) found
        ∙ ap (block_at next) found
        ∙ ap (λ u. next u.2 >>= close_block)
            (gettoken-symbol gap inner b'(' g
              (line-IsTrim l close h.0 (trim b')' (gap ++ (print_redirs gap rs ++ s)) refl)) refl)
        ∙ ap (λ r. r >>= close_block)
            (parseline-print l fuel close (omega arith) h.0 (inl refl, refl))
        ∙ block_end-print (line_cmd l) rs s h.1 b

  -- The calls are fewer than parsecmd gives fuel for.
  mutual
    unfolding cost_line print_line

    cost_line-le : (l : Line) → cost_line l ≤ 4 * length (print_line gap l) + 3
    cost_line-le (last p n) =
        omega (arith, cost_pipeline-le p, length-append (print_pipeline gap p) (print_backs gap n))
    cost_line-le (seq p n l) =
        let rest = b';' ∷ (gap ++ print_line gap l) in
        omega (
          arith,
          cost_pipeline-le p,
          cost_line-le l,
          length-append (print_pipeline gap p) (print_backs gap n ++ rest),
          length-append (print_backs gap n) rest,
          length-append gap (print_line gap l),
        )

    cost_pipeline-le : (p : Pipeline) → cost_pipeline p ≤ 4 * length (print_pipeline gap p) + 2
    cost_pipeline-le (single p) = omega (arith, cost_part-le p)
    cost_pipeline-le (piped p q) = omega (
      arith,
      cost_part-le p,
      cost_pipeline-le q,
      length-append (print_part gap p) (b'|' ∷ (gap ++ print_pipeline gap q)),
      length-append gap (print_pipeline gap q),
    )

    cost_part-le : (p : Part) → cost_part p ≤ 4 * length (print_part gap p) + 1
    cost_part-le (simple rs args) = omega arith
    cost_part-le (block l rs) =
        let rest = b')' ∷ (gap ++ print_redirs gap rs) in
        omega (
          arith,
          cost_line-le l,
          length-append gap (print_line gap l ++ rest),
          length-append (print_line gap l) rest,
        )

  -- parsecmd reads what the grammar prints, with any spaces behind every token, as the command that the
  -- sentence stands for: its pipes, lists and background commands nest as they are written, and its
  -- redirections enclose a command in their order, also those between its words.
  pub parsecmd-print : (l : Line) → IsLine l → parsecmd (print_line gap l) ≡ ok (line_cmd l)
  unfolding parsecmd finish
  parsecmd-print l h =
      let s = print_line gap l in
      ap (λ t. parseline (4 * length s + 4) t >>= finish) (sym (append-nil s))
      ∙ ap (λ r. r >>= finish)
          (parseline-print l (4 * length s + 4) [] (omega (arith, cost_line-le l)) h
            (inr refl, refl))
      ∙ ap (λ p. if length p.1 == 0 then ok (line_cmd l) else panic) (peek-IsTrim [] [] refl)
