-- ===== src/Str/Tests.antt =====
-- The theorems on kernel/string.c at small buffers.
use operationg_systems.Prelude.{ℕ, ◌≡◌, List, [], ◌∷◌}
use operationg_systems.Str.Memory.{memmove}
use operationg_systems.Str.Moved.{moved, memmove-moved}

abbrev word : List ℕ
word = 0x73 ∷ 0x68 ∷ 0x65 ∷ 0x6c ∷ 0x6c ∷ []

abbrev other_word : List ℕ
other_word = 0x73 ∷ 0x68 ∷ 0x6f ∷ []

-- Byte 12 after eight bytes at 10 have moved to 11, over themselves.
memmove-moved_example : memmove (λ a. a) 11 10 8 12 ≡ moved (λ a. a) 11 10 8 12
memmove-moved_example = memmove-moved (λ a. a) 11 10 8 12
