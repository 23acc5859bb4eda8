-- ===== src/User/Shell/Tests.antt =====
-- (cat < a | wc ; b >> c &) > d, with a space behind every token.
use operationg_systems.Prelude.{ℕ, zero, ◌≢◌, ◌≡◌, refl, arith, List, [], ◌∷◌}
use operationg_systems.User.Shell.{
  is_space, is_symbol, ok, panic, out_of_fuel, parsecmd, gettoken, peek, parse_simple, parse_backs,
}
use operationg_systems.User.Shell.Syntax.{
  Line, Part, last, seq, single, piped, simple, block, from, to, append, print_line, line_cmd,
  IsLine, IsWord, AllPlain,
}
use operationg_systems.User.Shell.Lexer.{IsGap}
use operationg_systems.User.Shell.RoundTrip.{parsecmd-print}
use operationg_systems.User.Shell.Ends.{parsecmd_ends}

abbrev cat_word : List ℕ
cat_word = b'c' ∷ b'a' ∷ b't' ∷ []

abbrev redirected_cat : Part
redirected_cat =
    simple []
      (record { word = cat_word; redirs = record { way = from; file = b'a' ∷ [] } ∷ [] } ∷ [])

abbrev wc_part : Part
wc_part = simple [] (record { word = b'w' ∷ b'c' ∷ []; redirs = [] } ∷ [])

abbrev appending : Part
appending =
    simple []
      (record { word = b'b' ∷ []; redirs = record { way = append; file = b'c' ∷ [] } ∷ [] } ∷ [])

abbrev sentence : Line
sentence =
    last
      (single (
        block (seq (piped redirected_cat (single wc_part)) zero (last (single appending) 1))
          (record { way = to; file = b'd' ∷ [] } ∷ [])))
      zero

one_space : IsGap (32 ∷ [])
unfolding is_space
one_space = ((refl, tt), λ e. absurd (cc))

letter : (c : ℕ) → AllPlain (c ∷ []) → IsWord (c ∷ [])
letter c h = (h, λ e. absurd (cc))

sentence-IsLine : IsLine sentence
unfolding IsLine is_space is_symbol
sentence-IsLine = (
  (
    (
      (
        tt,
        (((refl, (refl, (refl, tt))), λ e. absurd (cc)), (letter b'a' (refl, tt), tt), tt),
        omega arith,
      ),
      (tt, (((refl, (refl, tt)), λ e. absurd (cc)), tt, tt), omega arith),
    ),
    (tt, (letter b'b' (refl, tt), (letter b'c' (refl, tt), tt), tt), omega arith),
  ),
  (letter b'd' (refl, tt), tt),
)

parsecmd-print_example : parsecmd (print_line (32 ∷ []) sentence) ≡ ok (line_cmd sentence)
parsecmd-print_example = parsecmd-print (32 ∷ []) one_space sentence sentence-IsLine

-- Nothing may follow an ampersand but a semicolon.
leftovers : parsecmd (b'a' ∷ b'&' ∷ b'b' ∷ []) ≡ panic
unfolding parsecmd is_space is_symbol gettoken peek parse_simple parse_backs
leftovers = refl

parsecmd_ends_example : parsecmd (b'(' ∷ b'a' ∷ b'&' ∷ b'>' ∷ []) ≢ out_of_fuel
parsecmd_ends_example = parsecmd_ends (b'(' ∷ b'a' ∷ b'&' ∷ b'>' ∷ [])
