-- ===== src/User/Grep.antt =====
-- user/grep.c of Assignment1_2. A pattern or a text is the list of its bytes before the terminator; where
-- the code looks at the byte behind the end it finds 0.
pub mod Language
mod Tests
use operationg_systems.Prelude.{
  ℕ, List, [], ◌∷◌, Bool, true, false, ◌&&◌, ◌||◌, ◌==◌, if◌then◌else◌,
}

-- The loop of matchstar, `here` being matchhere of the pattern behind the star.
unfoldable pub star_loop : (List ℕ → Bool) → ℕ → List ℕ → Bool
star_loop here c [] = here []
star_loop here c (t ∷ text) =
    let rest = star_loop here c text in
    if here (t ∷ text) then true else if t == c || c == b'.' then rest else false

-- The last two lines of matchhere.
unfoldable pub match_one : (List ℕ → Bool) → ℕ → List ℕ → Bool
match_one here c [] = false
match_one here c (t ∷ text) = if c == b'.' || c == t then here text else false

abbrev is_empty : List ℕ → Bool
is_empty [] = true
is_empty (t ∷ text) = false

unfoldable pub matchhere : List ℕ → List ℕ → Bool
unfolding star_loop match_one
matchhere [] text = true
matchhere (c ∷ []) text = if c == b'$' then is_empty text else match_one (matchhere []) c text
matchhere (c ∷ d ∷ re) text =
    let starred = star_loop (matchhere re) c text in
    let single = match_one (matchhere (d ∷ re)) c text in if d == b'*' then starred else single

-- The loop of match.
unfoldable pub match_from : (List ℕ → Bool) → List ℕ → Bool
match_from here [] = here []
match_from here (t ∷ text) =
    let rest = match_from here text in if here (t ∷ text) then true else rest

unfoldable pub match : List ℕ → List ℕ → Bool
unfolding matchhere match_from
match [] text = match_from (matchhere []) text
match (c ∷ re) text = if c == b'^' then matchhere re text else match_from (matchhere (c ∷ re)) text
