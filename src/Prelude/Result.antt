-- ===== src/Prelude/Result.antt =====
-- What a kernel function does: return, or stop the machine by `panic`.
use mathlib.Core.Path.{◌≡◌, refl}

pub data Outcome {ℓ} (A : Type ℓ) : Type ℓ where
  panic : Outcome A
  ok : A → Outcome A

pub ok-injective {ℓ} : {A : Type ℓ} {a b : A} → ok a ≡ ok b → a ≡ b
ok-injective same = cc

module _ {ℓ κ} {A : Type ℓ} {B : Type κ} where
  infixl 5 ◌>>=◌ ◌>>◌
  -- A panic ends the whole call.
  abbrev pub ◌>>=◌ : Outcome A → (A → Outcome B) → Outcome B
  panic >>= next = panic
  ok a >>= next = next a

  abbrev pub ◌>>◌ : Outcome A → Outcome B → Outcome B
  panic >> next = panic
  ok a >> next = next

  -- A call that returned had each of its parts return.
  pub >>=-eq-ok :
      (first : Outcome A) (next : A → Outcome B) {b : B}
      → (first >>= next) ≡ ok b
      → (a : A) × (first ≡ ok a) × (next a ≡ ok b)
  >>=-eq-ok panic next came = cc
  >>=-eq-ok (ok a) next came = (a, refl, came)
