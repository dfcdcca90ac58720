-- ===== src/Prelude/Faults.antt =====
-- How a Go function ends. A Go `error` result is a value of `Fallible`, whose text is not kept.
use mathlib.Core.Path.{◌≡◌, refl}
use mathlib.Core.Logic.{◌⊎◌, inl, inr}
use mathlib.Core.Bool.{Bool, true, false}

-- `assertion`: `utils.Assert` or `log.Fatalf` ended the process. `out_of_range`: a slice index or
-- bound panicked. `nil_pointer`: a read through a nil
-- pointer panicked. `wrong_type`: a type assertion panicked. `out_of_fuel` belongs to the model only.
pub data Fault : Type 0 where
  assertion out_of_range nil_pointer wrong_type out_of_fuel : Fault

pub data Outcome {ℓ} (A : Type ℓ) : Type ℓ where
  ok : A → Outcome A
  fault : Fault → Outcome A

pub data Fallible {ℓ} (A : Type ℓ) : Type ℓ where
  value : A → Fallible A
  error : Fallible A

infixl 5 ◌>>=◌ ◌>>◌
abbrev pub ◌>>=◌ {ℓ κ} : {A : Type ℓ} {B : Type κ} → Outcome A → (A → Outcome B) → Outcome B
ok a >>= f = f a
fault e >>= f = fault e

abbrev pub ◌>>◌ {ℓ} : {B : Type ℓ} → Outcome (Unit {0}) → Outcome B → Outcome B
m >> k = m >>= λ _. k

-- `utils.Assert(cond, msg)`: the message goes to the log only.
abbrev pub assert : Bool → Outcome (Unit {0})
assert true = ok tt
assert false = fault assertion

-- `utils.Assert(err == nil, …)` behind a call, which then goes on with the value.
abbrev pub must {ℓ} : {A : Type ℓ} → Fallible A → Outcome A
must (value a) = ok a
must error = fault assertion

-- If a block returns, its first step did, with a value from which the rest goes on.
pub >>=-eq-ok {ℓ κ} :
    {A : Type ℓ} {B : Type κ} (first : Outcome A) (rest : A → Outcome B) {result : B}
    → (first >>= rest) ≡ ok result
    → (a : A) × (first ≡ ok a) × (rest a ≡ ok result)
>>=-eq-ok (ok a) rest returns = (a, refl, returns)
>>=-eq-ok (fault reason) rest returns = cc

pub ok-injective {ℓ} : {A : Type ℓ} {a b : A} → ok a ≡ ok b → a ≡ b
ok-injective h = cc

pub value-injective {ℓ} : {A : Type ℓ} {a b : A} → value a ≡ value b → a ≡ b
value-injective h = cc

pub Fallible-cases {ℓ} : {A : Type ℓ} (m : Fallible A) → ((a : A) × (m ≡ value a)) ⊎ (m ≡ error)
Fallible-cases (value a) = inl (a, refl)
Fallible-cases error = inr refl

pub must-eq-ok {ℓ} : {A : Type ℓ} (m : Fallible A) {a : A} → must m ≡ ok a → m ≡ value a
must-eq-ok (value a) h = cc
must-eq-ok error h = cc

-- Two blocks that begin alike are equal if they go on alike wherever the first step succeeds.
pub >>=-cong {ℓ κ} :
    {A : Type ℓ} {B : Type κ} (m : Outcome A) (f g : A → Outcome B)
    → ((a : A) → m ≡ ok a → f a ≡ g a)
    → (m >>= f) ≡ (m >>= g)
>>=-cong (ok a) f g h = h a refl
>>=-cong (fault e) f g h = refl
