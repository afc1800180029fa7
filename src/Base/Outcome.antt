-- ===== src/Base/Outcome.antt =====
-- What a piece of C++ does: it returns, throws, waits for ever, or leaves the language's definition
-- (a null pointer, an access outside an array).
use mathlib.Core.Path.{◌≡◌, refl, ap, ◌∙◌}

pub data Outcome {ℓ} (A : Type ℓ) : Type ℓ where
  returns : A → Outcome A
  throws : Outcome A
  blocks : Outcome A
  undefined : Outcome A

infixl 5 ◌>>=◌
abbrev pub ◌>>=◌ {ℓ κ} : {A : Type ℓ} {B : Type κ} → Outcome A → (A → Outcome B) → Outcome B
returns a >>= f = f a
throws >>= f = throws
blocks >>= f = blocks
undefined >>= f = undefined

-- A bind that returns has a first part that returns.
pub >>=-eq-returns {ℓ κ} :
    {A : Type ℓ} {B : Type κ} (m : Outcome A) (f : A → Outcome B) {b : B}
    → (m >>= f) ≡ returns b
    → (a : A) × (m ≡ returns a) × (f a ≡ returns b)
>>=-eq-returns (returns a) f h = (a, refl, h)
>>=-eq-returns throws f h = cc
>>=-eq-returns blocks f h = cc
>>=-eq-returns undefined f h = cc

-- A bind whose first part returns is its second part.
pub >>=_returns {ℓ κ} :
    {A : Type ℓ} {B : Type κ} {m : Outcome A} (f : A → Outcome B) {a : A} {o : Outcome B}
    → m ≡ returns a
    → f a ≡ o
    → (m >>= f) ≡ o
>>=_returns f e e' = ap (λ x. x >>= f) e ∙ e'

-- A bind whose first part throws throws.
pub >>=_throws {ℓ κ} :
    {A : Type ℓ} {B : Type κ} {m : Outcome A} (f : A → Outcome B) → m ≡ throws → (m >>= f) ≡ throws
>>=_throws f e = ap (λ x. x >>= f) e

pub returns-injective {ℓ} : {A : Type ℓ} {a b : A} → returns a ≡ returns b → a ≡ b
returns-injective e = cc
