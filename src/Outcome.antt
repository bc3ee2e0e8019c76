-- ===== src/Outcome.antt =====
-- Calls that may raise: Python's exceptions as values.
use mathlib.Core.Path.{subst}
use jedi_academy_pterodactyl.Prelude.{◌≡◌, refl, if◌then◌else◌, Bool, true, false}

pub data Exception : Type 0 where
  type_error value_error overflow_error key_error index_error attribute_error os_error
        recursion_error :
      Exception

pub data Outcome {ℓ} (A : Type ℓ) : Type ℓ where
  returns : A → Outcome A
  raises : Exception → Outcome A

infixl 5 ◌>>=◌
abbrev pub ◌>>=◌ {ℓ κ} : {A : Type ℓ} {B : Type κ} → Outcome A → (A → Outcome B) → Outcome B
returns a >>= f = f a
raises e >>= f = raises e

-- Inversion of a bind that returned.
pub >>=-eq-returns {ℓ κ} :
    {A : Type ℓ} {B : Type κ} (m : Outcome A) (f : A → Outcome B) {b : B}
    → (m >>= f) ≡ returns b
    → (a : A) × (m ≡ returns a) × (f a ≡ returns b)
>>=-eq-returns (returns a) f h = (a, refl, h)
>>=-eq-returns (raises e) f h = cc

-- If the call returns, its value has the property.
abbrev pub Holds {ℓ κ} : {A : Type ℓ} → (A → Type κ) → Outcome A → Type κ
Holds P (returns a) = P a
Holds P (raises e) = Unit

pub Holds-bind {ℓ κ μ} :
    {A : Type ℓ} {B : Type κ} (P : A → Type μ) (Q : B → Type μ) (m : Outcome A) (f : A → Outcome B)
    → Holds P m
    → ((a : A) → P a → Holds Q (f a))
    → Holds Q (m >>= f)
Holds-bind P Q (returns a) f h k = k a h
Holds-bind P Q (raises e) f h k = tt

pub Holds-weaken {ℓ κ μ} :
    {A : Type ℓ} (P : A → Type κ) (Q : A → Type μ) (m : Outcome A)
    → Holds P m
    → ((a : A) → P a → Q a)
    → Holds Q m
Holds-weaken P Q (returns a) h k = k a h
Holds-weaken P Q (raises e) h k = tt

pub Holds-if {ℓ κ} :
    {A : Type ℓ} (P : A → Type κ) (m n : Outcome A) (b : Bool)
    → Holds P m
    → Holds P n
    → Holds P (if b then m else n)
Holds-if P m n true h k = h
Holds-if P m n false h k = k

pub anything {ℓ} : {A : Type ℓ} (m : Outcome A) → Holds {ℓ, 0} (λ _. Unit) m
anything (returns a) = tt
anything (raises e) = tt

pub of_Holds {ℓ κ} :
    {A : Type ℓ} (P : A → Type κ) {r : Outcome A} {a : A} → Holds P r → r ≡ returns a → P a
of_Holds P h e = subst (Holds P) e h

-- The call returns, and its value has the property.
abbrev pub Yields {ℓ} : {A : Type ℓ} → (A → Type 0) → Outcome A → Type 0
Yields P (returns a) = P a
Yields P (raises e) = ⊥

pub Yields-bind {ℓ κ} :
    {A : Type ℓ} {B : Type κ} (P : A → Type 0) (Q : B → Type 0) (m : Outcome A) (f : A → Outcome B)
    → Yields P m
    → ((a : A) → P a → Yields Q (f a))
    → Yields Q (m >>= f)
Yields-bind P Q (returns a) f h k = k a h
Yields-bind P Q (raises e) f h k = absurd h

pub Yields-elim {ℓ} :
    {A : Type ℓ} (P : A → Type 0) (m : Outcome A) → Yields P m → (a : A) × (m ≡ returns a) × P a
Yields-elim P (returns a) h = (a, refl, h)
Yields-elim P (raises e) h = absurd h
