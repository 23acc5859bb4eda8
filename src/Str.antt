-- ===== src/Str.antt =====
-- kernel/string.c of Assignment1_2, the functions on C strings (those on memory are in Str/Memory).
-- A string is the list of its bytes. Reading at the end of the list gives the terminating 0; a 0 inside
-- the list ends the string there. A destination buffer is the list of its bytes, of its own length.
pub mod Laws
pub mod Memory
pub mod Moved
mod Tests
use operationg_systems.Prelude.{
  ℕ, zero, suc, ◌+◌, ◌-◌, ◌%◌, ◌^◌, List, [], ◌∷◌, Bool, true, false, not, ◌==◌, if◌then◌else◌,
  ◌&&◌,
}

-- strlen: the index of the first 0.
unfoldable pub strlen : List ℕ → ℕ
strlen [] = 0
strlen (c ∷ s) = if c == 0 then 0 else suc (strlen s)

-- while(n-- > 0) *s++ = 0;
unfoldable pub zero_fill : List ℕ → ℕ → List ℕ
zero_fill [] n = []
zero_fill (d ∷ ds) zero = d ∷ ds
zero_fill (d ∷ ds) (suc n) = 0 ∷ zero_fill ds n

-- strncpy(s, t, n) into the buffer s.
unfoldable pub strncpy : List ℕ → List ℕ → ℕ → List ℕ
unfolding zero_fill
strncpy [] t n = []
strncpy (d ∷ ds) t zero = d ∷ ds
strncpy (d ∷ ds) [] (suc n) = 0 ∷ zero_fill ds n
strncpy (d ∷ ds) (c ∷ t) (suc n) = if c == 0 then 0 ∷ zero_fill ds n else c ∷ strncpy ds t n

-- *s = 0
put_nul : List ℕ → List ℕ
put_nul [] = []
put_nul (d ∷ ds) = 0 ∷ ds

-- The loop of safestrcpy, with the room that --n leaves, and the *s = 0 behind it.
unfoldable pub copy_terminated : List ℕ → List ℕ → ℕ → List ℕ
unfolding put_nul
copy_terminated [] t room = []
copy_terminated (d ∷ ds) t zero = 0 ∷ ds
copy_terminated (d ∷ ds) [] (suc room) = 0 ∷ put_nul ds
copy_terminated (d ∷ ds) (c ∷ t) (suc room) =
    if c == 0 then 0 ∷ put_nul ds else c ∷ copy_terminated ds t room

unfoldable pub safestrcpy : List ℕ → List ℕ → ℕ → List ℕ
unfolding copy_terminated
safestrcpy s t zero = s
safestrcpy s t (suc room) = copy_terminated s t room

-- strncmp(p, q, n): the difference of two bytes as a 32-bit int.
unfoldable pub strncmp : List ℕ → List ℕ → ℕ → ℕ
strncmp p q zero = 0
strncmp [] [] (suc n) = 0
strncmp [] (d ∷ q) (suc n) = (2 ^ 32 - d) % 2 ^ 32
strncmp (c ∷ p) [] (suc n) = c
strncmp (c ∷ p) (d ∷ q) (suc n) =
    let rest = strncmp p q n in if not (c == 0) && c == d then rest else (c + 2 ^ 32 - d) % 2 ^ 32
