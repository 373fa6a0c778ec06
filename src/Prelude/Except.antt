-- ===== src/Prelude/Except.antt =====
-- C++ exceptions as values. An operation that changes an object and may throw returns its outcome
-- beside the object's new state, since a throw keeps what was written before it.
use mathlib.Core.Path.{◌≡◌, refl}
use mathlib.Core.List.{List, [], ◌∷◌}
use mathlib.Core.Logic.{◌⊎◌, inl, inr}
use Prim.Native.Nat.{ℕ}
use Prim.Native.String.{String}
use Prim.Native.Char.{code}

-- The bytes of a `std::string`.
abbrev pub Text : Type 0
Text = List ℕ

-- The bytes of a literal in ASCII.
pub text : String → Text
text String.[] = []
text (String.◌∷◌ c s) = code c ∷ text s

-- The standard exceptions that the code throws, each with its message.
pub data Error : Type 0 where
  invalid_argument logic_error overflow_error length_error : String → Error
  -- thrown by a handler; `other` is one that is no `std::exception`
  custom : Text → Error
  other : Error

pub data Result {ℓ} (A : Type ℓ) : Type ℓ where
  ok : A → Result A
  err : Error → Result A

-- An answer is a value, or else an exception.
pub Result-cases {ℓ} :
    {Value : Type ℓ} (answer : Result Value)
    → ((v : Value) × (answer ≡ ok v)) ⊎ ((x : Error) × (answer ≡ err x))
Result-cases (ok v) = inl (v, refl)
Result-cases (err x) = inr (x, refl)
