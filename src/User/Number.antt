-- ===== src/User/Number.antt =====
-- printint of user/printf.c of Assignment1_2, the numbers that it prints.
pub mod RoundTrip
mod Tests
use operationg_systems.Prelude.{
  ℕ, zero, suc, ◌+◌, ◌-◌, ◌%◌, ◌/◌, ◌^◌, List, [], ◌∷◌, ◌++◌, Bool, true, false, ◌&&◌, ◌==◌, ltb,
  leb, if◌then◌else◌, get_or,
}

-- "0123456789ABCDEF"
abbrev pub digits : List ℕ
digits = 48 ∷ 49 ∷ 50 ∷ 51 ∷ 52 ∷ 53 ∷ 54 ∷ 55 ∷ 56 ∷ 57 ∷ 65 ∷ 66 ∷ 67 ∷ 68 ∷ 69 ∷ 70 ∷ []

-- The loop that fills buf from the last digit on. A uint has at most 32 digits in any base from 2 on.
unfoldable pub digits_from : ℕ → ℕ → ℕ → List ℕ
digits_from zero base x = []
digits_from (suc fuel) base x =
    let rest = digits_from fuel base (x / base) in
    get_or digits (x % base) 0 ∷ (if x / base == 0 then [] else rest)

-- while(--i >= 0) putc(fd, buf[i]);
unfoldable pub put_back : List ℕ → List ℕ
put_back [] = []
put_back (c ∷ buf) = put_back buf ++ c ∷ []

-- The bytes that printint writes for the int xx.
unfoldable pub printint : ℕ → ℕ → Bool → List ℕ
unfolding digits_from put_back
printint xx base sgn =
    let neg = sgn && leb (2 ^ 31) xx in
    let x = if neg then (2 ^ 32 - xx) % 2 ^ 32 else xx in
    put_back (digits_from 32 base x ++ (if neg then b'-' ∷ [] else []))
