-- ===== src/User/Number/Tests.antt =====
-- printint and atoi at minus 120.
use operationg_systems.Prelude.{
  ℕ, ◌≡◌, ◌≤◌, ◌<◌, ◌-◌, ◌^◌, ◌⊎◌, refl, arith, List, [], ◌∷◌, true, length,
}
use operationg_systems.User.Ulib.{atoi}
use operationg_systems.User.Number.{printint}
use operationg_systems.User.Number.RoundTrip.{atoi-printint}

abbrev minus : ℕ
minus = 4294967176

printed : printint minus 10 true ≡ b'-' ∷ b'1' ∷ b'2' ∷ b'0' ∷ []
unfolding printint
printed = refl

atoi-printint_example :
    (length (printint minus 10 true) ≤ 16)
    × (((minus < 2 ^ 31) × (atoi (printint minus 10 true) ≡ minus))
        ⊎ ((2 ^ 31 ≤ minus)
            × ((s : List ℕ) × (printint minus 10 true ≡ b'-' ∷ s) × (atoi s ≡ 2 ^ 32 - minus))))
atoi-printint_example = atoi-printint minus (omega arith)
