-- ===== src/User/Wc.antt =====
-- user/wc.c of Assignment1_2. The reads of a file are the list of what they return, of at most 512 bytes each.
pub mod Text
mod Tests
use operationg_systems.Prelude.{
  ℕ, ◌+◌, ◌%◌, ◌^◌, List, [], ◌∷◌, Bool, true, false, not, ◌||◌, ◌==◌, if◌then◌else◌, Option, none,
  some,
}

-- l, w, c and inword
pub record Counts : Type 0 where
  pub lines : ℕ
  pub words : ℕ
  pub bytes : ℕ
  pub inword : Bool

abbrev pub start : Counts
start = record { lines = 0; words = 0; bytes = 0; inword = false }

-- strchr(" \r\t\n\v", c) != 0
unfoldable pub blank : ℕ → Bool
blank c = c == 32 || c == 13 || c == 9 || c == 10 || c == 11

abbrev pub int_inc : ℕ → ℕ
int_inc n = (n + 1) % 2 ^ 32

-- The body of the inner loop.
unfoldable pub count_byte : Counts → ℕ → Counts
unfolding blank
count_byte s c =
    let lines = if c == b'\n' then int_inc s.lines else s.lines in
    if blank c
    then record { lines = lines; words = s.words; bytes = int_inc s.bytes; inword = false }
    else record {
      lines = lines;
      words = if not s.inword then int_inc s.words else s.words;
      bytes = int_inc s.bytes;
      inword = true;
    }

unfoldable pub count_buf : Counts → List ℕ → Counts
unfolding count_byte
count_buf s [] = s
count_buf s (c ∷ buf) = count_buf (count_byte s c) buf

-- The outer loop: a read of no bytes ends it, and a failed one is none.
unfoldable pub count_reads : Counts → List (Option (List ℕ)) → Option Counts
unfolding count_buf
count_reads s [] = some s
count_reads s (none ∷ reads) = none
count_reads s (some [] ∷ reads) = some s
count_reads s (some (c ∷ buf) ∷ reads) = count_reads (count_buf s (c ∷ buf)) reads

-- What wc prints, or none for its error.
unfoldable pub wc : List (Option (List ℕ)) → Option Counts
unfolding count_reads
wc reads = count_reads start reads
