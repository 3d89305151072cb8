-- ===== src/Common/Runs.antt =====
-- Results of code that can end the process: a failed CHECK, a fatal log line, a wild pointer.
use mathlib.Core.Path.{◌≡◌, refl}
use mathlib.Core.Bool.{Bool, true, false}

pub data Run {ℓ} (A : Type ℓ) : Type ℓ where
  ok : A → Run A
  abort : Run A

infixl 5 ◌>>=◌ ◌>>◌
abbrev pub ◌>>=◌ {ℓ κ} : {A : Type ℓ} {B : Type κ} → Run A → (A → Run B) → Run B
ok a >>= f = f a
abort >>= f = abort

abbrev pub ◌>>◌ {ℓ} : {B : Type ℓ} → Run (Unit {0}) → Run B → Run B
m >> k = m >>= λ _. k

-- CHECK(condition)
abbrev pub check : Bool → Run (Unit {0})
check true = ok tt
check false = abort

-- A run of a check and then a value ends well only if the check passed.
pub >>-eq-ok {ℓ} :
    {A : Type ℓ} (m : Run (Unit {0})) (x y : A) → (m >> ok x) ≡ ok y → (m ≡ ok tt) × (x ≡ y)
>>-eq-ok (ok u) x y h = (refl, cc)
>>-eq-ok abort x y h = cc
