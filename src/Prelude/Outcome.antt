-- ===== src/Prelude/Outcome.antt =====
-- What a call of the program does: it returns, it throws an exception, or its behaviour is
-- undefined, such as a read past the end or an inverted iterator range.
use mathlib.Core.Path.{◌≡◌, refl}

-- The exceptions of the modelled code, by the class that is thrown.
pub data Error : Type 0 where
  runtime_error out_of_range : Error

pub data Outcome {ℓ} (A : Type ℓ) : Type ℓ where
  undefined : Outcome A
  throw : Error → Outcome A
  ok : A → Outcome A

infixl 5 ◌>>=◌
abbrev pub ◌>>=◌ {ℓ κ} : {A : Type ℓ} {B : Type κ} → Outcome A → (A → Outcome B) → Outcome B
undefined >>= next = undefined
throw error >>= next = throw error
ok value >>= next = next value

-- A chain that returns has a first call that returns.
pub >>=-eq-ok {ℓ κ} :
    {A : Type ℓ} {B : Type κ} (call : Outcome A) (next : A → Outcome B) {result : B}
    → (call >>= next) ≡ ok result
    → (value : A) × (call ≡ ok value) × (next value ≡ ok result)
>>=-eq-ok undefined next returns = cc
>>=-eq-ok (throw error) next returns = cc
>>=-eq-ok (ok value) next returns = (value, refl, returns)

pub ok-injective {ℓ} : {A : Type ℓ} {x y : A} → ok x ≡ ok y → x ≡ y
ok-injective same = cc
