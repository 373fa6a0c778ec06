-- ===== src/Prelude/State.antt =====
-- Operations that change an object of type `S` and may throw. The state after a throw is kept: a
-- C++ exception does not undo what was written before it.
use nexus_lab.Prelude.Except.{Error, Result, ok, err}
use mathlib.Core.Bool.{Bool, true, false}

abbrev pub M : Type 0 → Type 0 → Type 0
M S A = S → Result A × S

module _ {S : Type 0} where
  abbrev pub and_then : {A B : Type 0} → Result A × S → (A → M S B) → Result B × S
  and_then (ok a, s) f = f a s
  and_then (err e, s) f = (err e, s)

  infixl 5 ◌>>=◌ ◌>>◌
  abbrev pub ◌>>=◌ : {A B : Type 0} → M S A → (A → M S B) → M S B
  ◌>>=◌ m f s = and_then (m s) f

  abbrev pub ◌>>◌ : {B : Type 0} → M S (Unit {0}) → M S B → M S B
  ◌>>◌ m k s = and_then (m s) (λ _. k)

  abbrev pub pure : {A : Type 0} → A → M S A
  pure a s = (ok a, s)

  abbrev pub throw : {A : Type 0} → Error → M S A
  throw e s = (err e, s)

  abbrev pub get : M S S
  get s = (ok s, s)

  abbrev pub modify : (S → S) → M S (Unit {0})
  modify f s = (ok tt, f s)

  -- `if (test) { body }`
  abbrev pub when : Bool → M S (Unit {0}) → M S (Unit {0})
  when true m = m
  when false m = pure tt

  -- An answer that the object takes no part in.
  abbrev pub answer : {A : Type 0} → Result A → M S A
  answer r s = (r, s)

  -- A test that throws unless it holds.
  abbrev pub require : Bool → Error → M S (Unit {0})
  require true e = pure tt
  require false e = throw e
