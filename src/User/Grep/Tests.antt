-- ===== src/User/Grep/Tests.antt =====
-- The pattern a*b$ of user/grep.c.
use operationg_systems.Prelude.{◌≡◌, ◌↔◌, refl, List, ℕ, [], ◌∷◌, true, false}
use operationg_systems.User.Grep.{match}
use operationg_systems.User.Grep.Language.{Matches, match_iff}

abbrev pattern_text : List ℕ
pattern_text = b'a' ∷ b'*' ∷ b'b' ∷ b'$' ∷ []

matched : match pattern_text (b'c' ∷ b'a' ∷ b'a' ∷ b'b' ∷ []) ≡ true
unfolding match
matched = refl

unmatched : match pattern_text (b'a' ∷ b'b' ∷ b'c' ∷ []) ≡ false
unfolding match
unmatched = refl

match_iff_example :
    (match pattern_text (b'c' ∷ b'a' ∷ b'a' ∷ b'b' ∷ []) ≡ true)
    ↔ Matches pattern_text (b'c' ∷ b'a' ∷ b'a' ∷ b'b' ∷ [])
match_iff_example = match_iff pattern_text (b'c' ∷ b'a' ∷ b'a' ∷ b'b' ∷ [])
