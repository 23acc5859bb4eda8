-- ===== src/Str/Laws.antt =====
-- What the string functions of kernel/string.c leave in the destination.
use operationg_systems.Prelude.{
  ℕ, zero, suc, ◌≡◌, ◌≤◌, ◌<◌, ◌↔◌, List, [], ◌∷◌, arith, min, refl, length, get_or, ltb, ap,
  if◌then◌else◌, take, ◌-◌,
}
use operationg_systems.Str.{
  strlen, zero_fill, strncpy, put_nul, copy_terminated, safestrcpy, strncmp,
}

pub length-zero_fill : (s : List ℕ) (n : ℕ) → length (zero_fill s n) ≡ length s
unfolding zero_fill
length-zero_fill [] n = refl
length-zero_fill (d ∷ s) zero = refl
length-zero_fill (d ∷ s) (suc n) = ap suc (length-zero_fill s n)

pub length-strncpy : (s t : List ℕ) (n : ℕ) → length (strncpy s t n) ≡ length s
unfolding strncpy
length-strncpy [] t n = refl
length-strncpy (d ∷ s) t zero = refl
length-strncpy (d ∷ s) [] (suc n) = ap suc (length-zero_fill s n)
length-strncpy (d ∷ s) (c ∷ t) (suc n) = ground (arith, length-zero_fill s n, length-strncpy s t n)

-- bytes, none of which is 0
abbrev pub IsText : List ℕ → Type 0
IsText [] = Unit {0}
IsText (c ∷ s) = ((0 < c) × (c < 256)) × IsText s

zero_fill-get :
    (s : List ℕ) (n i : ℕ) → get_or (zero_fill s n) i 0 ≡ (if ltb i n then 0 else get_or s i 0)
unfolding zero_fill
zero_fill-get [] n i = ground arith
zero_fill-get (d ∷ s) zero i = ground arith
zero_fill-get (d ∷ s) (suc n) zero = ground arith
zero_fill-get (d ∷ s) (suc n) (suc i) = ground (arith, zero_fill-get s n i)

-- Byte i of the buffer after strncpy(s, t, n), for a buffer of n bytes or more: below n it is byte i of
-- t before the terminator of t, and 0 behind it; from n on the buffer is as before.
pub strncpy-get :
    (s t : List ℕ) (n i : ℕ)
    → n ≤ length s
    → get_or (strncpy s t n) i 0
      ≡ (if ltb i n then if ltb i (strlen t) then get_or t i 0 else 0 else get_or s i 0)
unfolding strncpy strlen
strncpy-get [] t n i h = ground arith
strncpy-get (d ∷ s) t zero i h = ground arith
strncpy-get (d ∷ s) [] (suc n) zero h = ground arith
strncpy-get (d ∷ s) [] (suc n) (suc i) h = ground (arith, zero_fill-get s n i)
strncpy-get (d ∷ s) (c ∷ t) (suc n) zero h = ground arith
strncpy-get (d ∷ s) (c ∷ t) (suc n) (suc i) h =
    ground (arith, zero_fill-get s n i, strncpy-get s t n i)

zero_fill-forgets :
    (s s' : List ℕ) → length s ≡ length s' → zero_fill s (length s) ≡ zero_fill s' (length s')
unfolding zero_fill
zero_fill-forgets [] [] h = refl
zero_fill-forgets [] (e ∷ s') h = absurd (omega arith)
zero_fill-forgets (d ∷ s) [] h = absurd (omega arith)
zero_fill-forgets (d ∷ s) (e ∷ s') h = ap (◌∷◌ 0) (zero_fill-forgets s s' (omega arith))

-- A strncpy over the whole buffer leaves nothing of what was there.
pub strncpy-forgets :
    (s s' t : List ℕ) → length s ≡ length s' → strncpy s t (length s) ≡ strncpy s' t (length s')
unfolding strncpy
strncpy-forgets [] [] t h = refl
strncpy-forgets [] (e ∷ s') t h = absurd (omega arith)
strncpy-forgets (d ∷ s) [] t h = absurd (omega arith)
strncpy-forgets (d ∷ s) (e ∷ s') [] h = ap (◌∷◌ 0) (zero_fill-forgets s s' (omega arith))
strncpy-forgets (d ∷ s) (e ∷ s') (c ∷ t) h =
    ground (arith, zero_fill-forgets s s', strncpy-forgets s s' t)

strlen-copy_terminated :
    (s t : List ℕ) (room : ℕ)
    → room < length s
    → strlen (copy_terminated s t room) ≡ min (strlen t) room
unfolding copy_terminated strlen put_nul
strlen-copy_terminated [] t room h = absurd (omega arith)
strlen-copy_terminated (d ∷ s) [] zero h = ground arith
strlen-copy_terminated (d ∷ s) (c ∷ t) zero h = ground arith
strlen-copy_terminated (d ∷ s) [] (suc room) h = ground arith
strlen-copy_terminated (d ∷ s) (c ∷ t) (suc room) h =
    ground (arith, strlen-copy_terminated s t room)

copy_terminated-get :
    (s t : List ℕ) (room i : ℕ)
    → room < length s
    → i < min (strlen t) room
    → get_or (copy_terminated s t room) i 0 ≡ get_or t i 0
unfolding copy_terminated strlen
copy_terminated-get [] t room i h k = absurd (omega arith)
copy_terminated-get (d ∷ s) [] room i h k = absurd (omega arith)
copy_terminated-get (d ∷ s) (c ∷ t) zero i h k = absurd (omega arith)
copy_terminated-get (d ∷ s) (c ∷ t) (suc room) zero h k = ground arith
copy_terminated-get (d ∷ s) (c ∷ t) (suc room) (suc i) h k =
    ground (arith, copy_terminated-get s t room i)

-- safestrcpy(s, t, n), for 0 < n and a buffer of n bytes or more, leaves a string of the first n - 1
-- bytes of t, or of all of t if it is shorter: its length, and each of its bytes.
pub safestrcpy_lem :
    (s t : List ℕ) (n i : ℕ)
    → 0 < n
    → n ≤ length s
    → (strlen (safestrcpy s t n) ≡ min (strlen t) (n - 1))
      × ((if ltb i (min (strlen t) (n - 1)) then get_or (safestrcpy s t n) i 0 else 0)
          ≡ (if ltb i (min (strlen t) (n - 1)) then get_or t i 0 else 0))
unfolding safestrcpy
safestrcpy_lem s t zero i h k = absurd (omega arith)
safestrcpy_lem s t (suc room) i h k =
    let e : suc room - 1 ≡ room = omega arith in
    rw e (strlen-copy_terminated s t room k, ground (arith, copy_terminated-get s t room i k))

-- strncmp(p, q, n), on strings of bytes of which neither has a byte 0 before its end, returns 0 exactly
-- if the first n bytes agree.
pub strncmp-eq_zero :
    (p q : List ℕ) (n : ℕ) → IsText p → IsText q → (strncmp p q n ≡ 0) ↔ (take n p ≡ take n q)
unfolding strncmp
strncmp-eq_zero p q zero hp hq = ground arith
strncmp-eq_zero [] [] (suc n) hp hq = ground arith
strncmp-eq_zero [] (d ∷ q) (suc n) hp hq = ground arith
strncmp-eq_zero (c ∷ p) [] (suc n) hp hq = ground arith
strncmp-eq_zero (c ∷ p) (d ∷ q) (suc n) hp hq = ground (arith, strncmp-eq_zero p q n hp.1 hq.1)
