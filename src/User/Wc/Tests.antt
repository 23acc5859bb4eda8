-- ===== src/User/Wc/Tests.antt =====
-- Tests of user/wc.c.
use operationg_systems.Prelude.{
  false, ℕ, ◌%◌, ◌^◌, ◌≡◌, refl, List, [], ◌∷◌, ◌++◌, none, some, map, length, arith,
}
use operationg_systems.User.Wc.{Counts, wc}
use operationg_systems.User.Wc.Text.{words_from, newlines, joined, wc_counts}

-- "hi", " y" and "o\n", in three reads
abbrev three_reads : List (List ℕ)
three_reads = (b'h' ∷ b'i' ∷ []) ∷ (b' ' ∷ b'y' ∷ []) ∷ (b'o' ∷ b'\n' ∷ []) ∷ []

test_three :
    wc (map (λ l. some l) three_reads ++ some [] ∷ [])
    ≡ some record { lines = 1; words = 2; bytes = 6; inword = false }
unfolding wc
test_three = refl

test_error : wc (some (b'h' ∷ []) ∷ none ∷ []) ≡ none
unfolding wc
test_error = refl

wc_counts_example :
    (r : Counts) × (wc (map (λ l. some l) three_reads ++ some [] ∷ []) ≡ some r)
    × (r.lines ≡ newlines (joined three_reads) % 2 ^ 32)
    × (r.words ≡ length (words_from [] (joined three_reads)) % 2 ^ 32)
    × (r.bytes ≡ length (joined three_reads) % 2 ^ 32)
wc_counts_example = wc_counts three_reads (omega arith, (omega arith, (omega arith, tt)))
