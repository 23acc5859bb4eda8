-- ===== src/User/Ulib.antt =====
-- user/ulib.c of Assignment1_2: the functions on strings and memory. A string is the list of its bytes before
-- the terminator; a chars buffer is a list. An int is its 32-bit pattern.
pub mod Laws
use operationg_systems.Prelude.{
  ℕ, zero, suc, ◌+◌, ◌-◌, ◌%◌, ◌^◌, ◌*◌, List, [], ◌∷◌, ◌++◌, Bool, true, false, ◌&&◌, ◌||◌, ◌==◌,
  ltb, leb, if◌then◌else◌, Option, none, some, length,
}
use operationg_systems.Str.Memory.{Memory, store, copy_up, copy_down}

-- The buffer, or none where the code writes behind its end.
unfoldable pub strcpy : List ℕ → List ℕ → Option (List ℕ)
strcpy [] t = none
strcpy (d ∷ s) [] = some (0 ∷ s)
strcpy (d ∷ s) (c ∷ t) = elim (strcpy s t) [ none ↦ none | some r ↦ some (c ∷ r) ]

unfoldable pub strcmp : List ℕ → List ℕ → ℕ
strcmp [] [] = 0
strcmp [] (d ∷ q) = (2 ^ 32 - d) % 2 ^ 32
strcmp (c ∷ p) [] = c
strcmp (c ∷ p) (d ∷ q) = let rest = strcmp p q in if c == d then rest else (c + 2 ^ 32 - d) % 2 ^ 32

unfoldable pub strlen : List ℕ → ℕ
strlen [] = 0
strlen (c ∷ s) = suc (strlen s)

unfoldable pub memset : Memory → ℕ → ℕ → ℕ → Memory
memset m dst c zero = m
memset m dst c (suc n) = memset (store m dst (c % 256)) (dst + 1) c n

-- The string from the first c on, if it is there.
unfoldable pub strchr : List ℕ → ℕ → Option (List ℕ)
strchr [] c = none
strchr (x ∷ s) c = let rest = strchr s c in if x == c then some (x ∷ s) else rest

-- The loop of gets with max - 1 - i = left, on what standard input holds: the bytes, and the input left.
unfoldable pub gets_from : ℕ → List ℕ → List ℕ × List ℕ
gets_from zero input = ([], input)
gets_from (suc left) [] = ([], [])
gets_from (suc left) (c ∷ input) =
    let rest = gets_from left input in
    if c == b'\n' || c == b'\r' then (c ∷ [], input) else (c ∷ rest.0, rest.1)

unfoldable pub gets : ℕ → List ℕ → List ℕ × List ℕ
unfolding gets_from
gets max input = gets_from (max - 1) input

-- The loop of atoi.
unfoldable pub atoi_from : ℕ → List ℕ → ℕ
atoi_from n [] = n
atoi_from n (c ∷ s) =
    let rest = atoi_from ((n * 10 + c - b'0') % 2 ^ 32) s in
    if leb b'0' c && leb c b'9' then rest else n

unfoldable pub atoi : List ℕ → ℕ
unfolding atoi_from
atoi s = atoi_from 0 s

-- It tests the order of the pointers alone.
unfoldable pub memmove : Memory → ℕ → ℕ → ℕ → Memory
unfolding copy_up copy_down
memmove m dst src n = if ltb dst src then copy_up m dst src n else copy_down m dst src n

unfoldable pub memcmp : Memory → ℕ → ℕ → ℕ → ℕ
memcmp m s1 s2 zero = 0
memcmp m s1 s2 (suc n) =
    let rest = memcmp m (s1 + 1) (s2 + 1) n in
    if m s1 == m s2 then rest else (m s1 + 2 ^ 32 - m s2) % 2 ^ 32

unfoldable pub memcpy : Memory → ℕ → ℕ → ℕ → Memory
unfolding memmove
memcpy m dst src n = memmove m dst src n
