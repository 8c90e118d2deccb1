-- ===== src/Result.antt =====
-- Go's (value, error) as a handler returns it: the value, or an error that is not nil.
use access_controller.Prelude.{◌≡◌, refl, Bool, true, false, Option, none, some}
use access_controller.Status.{Failure}

pub data Result {ℓ} (A : Type ℓ) : Type ℓ where
  returns : A → Result A
  fails : Failure → Result A

infixl 5 ◌>>=◌ ◌>>◌
abbrev pub ◌>>=◌ {ℓ κ} : {A : Type ℓ} {B : Type κ} → Result A → (A → Result B) → Result B
returns a >>= f = f a
fails e >>= f = fails e

abbrev pub ◌>>◌ {ℓ} : {B : Type ℓ} → Result (Unit {0}) → Result B → Result B
m >> k = m >>= λ _. k

-- if the test fails, return the error
abbrev pub require : Bool → Failure → Result (Unit {0})
require true e = returns tt
require false e = fails e

-- if the value is nil, return the error
abbrev pub found {ℓ} : {A : Type ℓ} → Option A → Failure → Result A
found none e = fails e
found (some a) e = returns a

-- A value of a sequence comes from a value of its first part.
pub >>=-returns {ℓ κ} :
    {A : Type ℓ} {B : Type κ} (m : Result A) (f : A → Result B) (b : B)
    → (m >>= f) ≡ returns b
    → (a : A) × (m ≡ returns a) × (f a ≡ returns b)
>>=-returns (returns a) f b h = (a, refl, h)
>>=-returns (fails e) f b h = cc

pub found-returns {ℓ} :
    {A : Type ℓ} (o : Option A) (e : Failure) (a : A) → found o e ≡ returns a → o ≡ some a
found-returns none e a h = cc
found-returns (some x) e a h = cc
