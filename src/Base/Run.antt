-- ===== src/Base/Run.antt =====
-- Runs of C code: a value, an access outside an object (undefined behaviour), or no fuel left.
use mathlib.Core.Path.{◌≡◌, refl}

infixl 5 ◌>>=◌
pub data Run {ℓ} (A : Type ℓ) : Type ℓ where
  ok : A → Run A
  fault : Run A
  no_fuel : Run A

abbrev pub ◌>>=◌ {κ ℓ} : {V : Type κ} {W : Type ℓ} → Run V → (V → Run W) → Run W
no_fuel >>= next = no_fuel
fault >>= next = fault
ok v >>= next = next v

pub >>=-eq-ok {κ ℓ} :
    {V : Type κ} {W : Type ℓ} (run : Run V) (next : V → Run W) {w : W}
    → (run >>= next) ≡ ok w
    → (v : V) × (run ≡ ok v) × (next v ≡ ok w)
>>=-eq-ok no_fuel next h = cc
>>=-eq-ok fault next h = cc
>>=-eq-ok (ok v) next h = (v, refl, h)
