-- ===== src/Common/Errors.antt =====
-- The exceptions of include/public/vda5050++/exception.h that the modelled code throws, as values,
-- and `std::out_of_range` of `map::at`. `undefined` marks what C++ leaves undefined: a read through
-- a null pointer, an empty optional or an end iterator. Contexts and messages are left out.
use mathlib.Core.Path.{◌≡◌, refl}
use mathlib.Core.Logic.{◌⊎◌, inl, inr}

pub data Error : Type 0 where
  invalid_argument null_pointer invalid_state invalid_event_data timed_out : Error
  invalid_action_parameter_type invalid_configuration : Error
  out_of_range undefined : Error

pub data Result {ℓ} (A : Type ℓ) : Type ℓ where
  ok : A → Result A
  err : Error → Result A

-- Nothing runs behind a throw.
infixl 5 ◌>>=◌
abbrev pub ◌>>=◌ {ℓ} : {A B : Type ℓ} → Result A → (A → Result B) → Result B
m >>= f = elim m [ ok a ↦ f a | err e ↦ err e ]

-- To split on a computed result and keep the equation.
pub Result-cases {ℓ} :
    {A : Type ℓ} (r : Result A) → ((a : A) × (r ≡ ok a)) ⊎ ((e : Error) × (r ≡ err e))
Result-cases (ok a) = inl (a, refl)
Result-cases (err e) = inr (e, refl)
