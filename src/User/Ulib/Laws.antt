-- ===== src/User/Ulib/Laws.antt =====
-- The functions of user/ulib.c against what they are for.
use operationg_systems.Prelude.{
  ℕ, suc, ◌≡◌, ◌≤◌, ◌<◌, ◌↔◌, ◌⊎◌, refl, List, [], ◌∷◌, ◌++◌, arith, none, some, length, inl, inr,
  drop,
}
use operationg_systems.Str.Laws.{IsText}
use operationg_systems.Str.Memory.{Memory}
use operationg_systems.Str.Moved.{moved, copy_up-moved, copy_down-moved}
use operationg_systems.User.Ulib.{strcpy, strcmp, memmove}

-- strcmp returns 0 exactly for equal strings.
pub strcmp-eq_zero : (p q : List ℕ) → IsText p → IsText q → (strcmp p q ≡ 0) ↔ (p ≡ q)
unfolding strcmp
strcmp-eq_zero [] [] hp hq = ground arith
strcmp-eq_zero [] (d ∷ q) hp hq = ground arith
strcmp-eq_zero (c ∷ p) [] hp hq = ground arith
strcmp-eq_zero (c ∷ p) (d ∷ q) hp hq = ground (arith, strcmp-eq_zero p q hp.1 hq.1)

-- strcpy leaves the string, its terminator and what was behind, in a buffer that has room for them; in no
-- other does it stay inside.
pub strcpy_lem :
    (s t : List ℕ)
    → ((length t < length s) × (strcpy s t ≡ some (t ++ 0 ∷ drop (suc (length t)) s)))
      ⊎ ((length s ≤ length t) × (strcpy s t ≡ none))
unfolding strcpy
strcpy_lem [] t = inr (omega arith, refl)
strcpy_lem (d ∷ s) [] = inl (omega arith, refl)
strcpy_lem (d ∷ s) (c ∷ t) = ground (arith, strcpy_lem s t)

-- The memmove of the user library copies as if through a third buffer, as that of the kernel does.
pub user_memmove-moved :
    (m : Memory) (dst src n a : ℕ) → memmove m dst src n a ≡ moved m dst src n a
unfolding memmove
user_memmove-moved m dst src n a =
    ground (arith, copy_up-moved n m dst src a, copy_down-moved n m dst src a)
