-- ===== src/User/Number/RoundTrip.antt =====
-- atoi of user/ulib.c reads what printint of user/printf.c prints.
use operationg_systems.Prelude.{
  ℕ, zero, suc, ◌+◌, ◌-◌, ◌*◌, ◌%◌, ◌/◌, ◌^◌, ◌≡◌, ◌≤◌, ◌<◌, ◌⊎◌, refl, ap, ◌∙◌, List, [], ◌∷◌,
  ◌++◌, true, ◌==◌, leb, if◌then◌else◌, arith, get_or, length, length-append, Bool-cases, inl, inr,
}
use mathlib.Core.List.{append-nil}
use operationg_systems.User.Ulib.{atoi, atoi_from}
use operationg_systems.User.Number.{digits, digits_from, put_back, printint}

abbrev AllDigits : List ℕ → Type 0
AllDigits [] = Unit {0}
AllDigits (c ∷ s) = ((48 ≤ c) × (c ≤ 57)) × AllDigits s

AllDigits-append : (xs ys : List ℕ) → AllDigits xs → AllDigits ys → AllDigits (xs ++ ys)
AllDigits-append [] ys a b = b
AllDigits-append (x ∷ xs) ys a b = (a.0, AllDigits-append xs ys a.1 b)

atoi_from-append :
    (n : ℕ) (xs ys : List ℕ) → AllDigits xs → atoi_from n (xs ++ ys) ≡ atoi_from (atoi_from n xs) ys
unfolding atoi_from
atoi_from-append n [] ys a = refl
atoi_from-append n (x ∷ xs) ys a =
    ground (arith, atoi_from-append ((n * 10 + x - 48) % 2 ^ 32) xs ys a.1)

digit_of : (d : ℕ) → d < 10 → get_or digits d 0 ≡ 48 + d
digit_of zero h = refl
digit_of (suc zero) h = refl
digit_of (suc (suc zero)) h = refl
digit_of (suc (suc (suc zero))) h = refl
digit_of (suc (suc (suc (suc zero)))) h = refl
digit_of (suc (suc (suc (suc (suc zero))))) h = refl
digit_of (suc (suc (suc (suc (suc (suc zero)))))) h = refl
digit_of (suc (suc (suc (suc (suc (suc (suc zero))))))) h = refl
digit_of (suc (suc (suc (suc (suc (suc (suc (suc zero)))))))) h = refl
digit_of (suc (suc (suc (suc (suc (suc (suc (suc (suc zero))))))))) h = refl
digit_of (suc (suc (suc (suc (suc (suc (suc (suc (suc (suc d)))))))))) h = absurd (omega arith)

abbrev ten_power : ℕ → ℕ
ten_power zero = 1
ten_power (suc n) = 10 * ten_power n

abbrev printed : ℕ → ℕ → List ℕ
printed fuel x = put_back (digits_from fuel 10 x)

-- One more digit.
AllDigits-printed : (fuel x : ℕ) → AllDigits (printed fuel x)
unfolding digits_from put_back
AllDigits-printed zero x = tt
AllDigits-printed (suc fuel) x = elim (Bool-cases (x / 10 == 0)) [
  | inl last ↦ rw (last, digit_of (x % 10) (omega arith)) ((omega arith, omega arith), tt)
  | inr more ↦
      rw (more, digit_of (x % 10) (omega arith))
        (AllDigits-append (printed fuel (x / 10)) ((48 + x % 10) ∷ [])
          (AllDigits-printed fuel (x / 10)) ((omega arith, omega arith), tt))
]

atoi_from-digit : (n d : ℕ) → d < 10 → atoi_from n ((48 + d) ∷ []) ≡ (n * 10 + d) % 2 ^ 32
unfolding atoi_from
atoi_from-digit n d h = ground arith

atoi_from-printed :
    (fuel x : ℕ) → x < 2 ^ 32 → x < ten_power fuel → atoi_from 0 (printed fuel x) ≡ x
unfolding digits_from put_back atoi_from
atoi_from-printed zero x w h = zero_only x h
  where
    zero_only : (x : ℕ) → x < 1 → atoi_from 0 [] ≡ x
    zero_only x h = ground arith
atoi_from-printed (suc fuel) x w h = elim (Bool-cases (x / 10 == 0)) [
  | inl last ↦
      rw (last, digit_of (x % 10) (omega arith))
        (atoi_from-digit 0 (x % 10) (omega arith) ∙ ground (arith, last))
  | inr more ↦
      rw (more, digit_of (x % 10) (omega arith))
        (atoi_from-append 0 (printed fuel (x / 10)) ((48 + x % 10) ∷ [])
            (AllDigits-printed fuel (x / 10))
          ∙ ap (λ n. atoi_from n ((48 + x % 10) ∷ []))
              (atoi_from-printed fuel (x / 10) (omega arith) (omega arith))
          ∙ atoi_from-digit (x / 10) (x % 10) (omega arith)
          ∙ omega arith)
]

length-digits_from : (fuel n x : ℕ) → x < ten_power (suc n) → length (digits_from fuel 10 x) ≤ suc n
unfolding digits_from
length-digits_from zero n x h = omega arith
length-digits_from (suc fuel) zero x h = ground arith
length-digits_from (suc fuel) (suc n) x h =
    ground (arith, length-digits_from fuel n (x / 10) (omega arith))

put_back-append : (xs : List ℕ) (c : ℕ) → put_back (xs ++ c ∷ []) ≡ c ∷ put_back xs
unfolding put_back
put_back-append [] c = refl
put_back-append (x ∷ xs) c = ap (λ l. l ++ x ∷ []) (put_back-append xs c)

length-put_back : (xs : List ℕ) → length (put_back xs) ≡ length xs
unfolding put_back
length-put_back [] = refl
length-put_back (x ∷ xs) = omega (arith, length-append (put_back xs) (x ∷ []), length-put_back xs)

-- The bytes that printint writes, with its loop's bound as a variable.
abbrev shown_as : ℕ → ℕ → List ℕ
shown_as fuel xx =
    let neg = leb (2 ^ 31) xx in
    let x = if neg then (2 ^ 32 - xx) % 2 ^ 32 else xx in
    put_back (digits_from fuel 10 x ++ (if neg then b'-' ∷ [] else []))

shown :
    (fuel xx : ℕ)
    → xx < 2 ^ 32
    → 2 ^ 32 ≤ ten_power fuel
    → (length (shown_as fuel xx) ≤ 16)
      × (((xx < 2 ^ 31) × (atoi_from 0 (shown_as fuel xx) ≡ xx))
          ⊎ ((2 ^ 31 ≤ xx)
              × ((s : List ℕ) × (shown_as fuel xx ≡ b'-' ∷ s) × (atoi_from 0 s ≡ 2 ^ 32 - xx))))
shown fuel xx w h = elim (Bool-cases (leb (2 ^ 31) xx)) [
  | inr plus ↦
      let none_more = append-nil (digits_from fuel 10 xx) in
      rw (plus, none_more)
        (
          omega (
            arith,
            length-put_back (digits_from fuel 10 xx),
            length-digits_from fuel 9 xx (omega arith),
          ),
          inl (ground (arith, plus), atoi_from-printed fuel xx w (omega arith)),
        )
  | inl minus ↦
      let x = (2 ^ 32 - xx) % 2 ^ 32 in
      let q : x ≡ 2 ^ 32 - xx = ground (arith, minus) in
      let signed = put_back-append (digits_from fuel 10 x) b'-' in
      rw (minus, signed)
        (
          omega (
            arith,
            length-put_back (digits_from fuel 10 x),
            length-digits_from fuel 9 x (omega arith),
          ),
          inr (
            ground (arith, minus),
            (printed fuel x, refl, atoi_from-printed fuel x (omega arith) (omega arith) ∙ q),
          ),
        )
]

-- For every int, the decimal that printint writes fits into its buffer of 16 bytes with the sign, and atoi
-- reads it back: the whole of it for one that is not negative, and what follows the sign, as its absolute
-- value, for one that is.
pub atoi-printint :
    (xx : ℕ)
    → xx < 2 ^ 32
    → (length (printint xx 10 true) ≤ 16)
      × (((xx < 2 ^ 31) × (atoi (printint xx 10 true) ≡ xx))
          ⊎ ((2 ^ 31 ≤ xx)
              × ((s : List ℕ) × (printint xx 10 true ≡ b'-' ∷ s) × (atoi s ≡ 2 ^ 32 - xx))))
unfolding printint atoi
atoi-printint xx w = shown 32 xx w (omega arith)
