-- ===== src/Prelude/Lists.antt =====
-- Lists over native numbers: length, indexing, predicates by recursion, and sets of numbers.
use Prim.Native.Nat.{ℕ, zero, suc, ◌+◌}
use mathlib.Core.Path.{◌≡◌, refl}
use mathlib.Core.Bool.{Bool, true, false}
use mathlib.Core.List.{List, [], ◌∷◌, ◌++◌}
use mathlib.Core.Option.{Option, none, some}
use native.Mathlib.Omega.{arith}
use nexus_lab.Prelude.Tests.{◌==◌, if◌then◌else◌}

module _ {ℓ} {A : Type ℓ} where
  abbrev pub length : List A → ℕ
  length [] = 0
  length (x ∷ xs) = suc (length xs)

  abbrev pub get_elem? : List A → ℕ → Option A
  get_elem? [] i = none
  get_elem? (x ∷ xs) zero = some x
  get_elem? (x ∷ xs) (suc i) = get_elem? xs i

  -- `P` holds of every element.
  abbrev pub All {κ} : (A → Type κ) → List A → Type κ
  All P [] = Unit
  All P (x ∷ xs) = P x × All P xs

  pub length-append : (xs ys : List A) → length (xs ++ ys) ≡ length xs + length ys
  length-append [] ys = omega arith
  length-append (x ∷ xs) ys = omega (arith, length-append xs ys)

  pub All-append {κ} : (P : A → Type κ) (xs ys : List A) → All P xs → All P ys → All P (xs ++ ys)
  All-append P [] ys p q = q
  All-append P (x ∷ xs) ys p q = (p.0, All-append P xs ys p.1 q)

  pub All-map {κ κ'} :
      (P : A → Type κ) (Q : A → Type κ') (xs : List A) → ((x : A) → P x → Q x) → All P xs → All Q xs
  All-map P Q [] f p = tt
  All-map P Q (x ∷ xs) f p = (f x p.0, All-map P Q xs f p.1)

-- `contains` of a `std::unordered_set<std::uint64_t>` that is kept as a list.
abbrev pub contains : List ℕ → ℕ → Bool
contains [] a = false
contains (x ∷ xs) a = if x == a then true else contains xs a

-- `erase(key)` on such a set: every copy goes, and a set holds one at most.
abbrev pub erase : ℕ → List ℕ → List ℕ
erase a [] = []
erase a (x ∷ xs) = if x == a then erase a xs else x ∷ erase a xs

-- The elements are distinct, as in a set.
abbrev pub Distinct : List ℕ → Type 0
Distinct [] = Unit
Distinct (x ∷ xs) = (contains xs x ≡ false) × Distinct xs

pub contains-append :
    (xs ys : List ℕ) (a : ℕ)
    → contains (xs ++ ys) a ≡ (if contains xs a then true else contains ys a)
contains-append [] ys a = refl
contains-append (x ∷ xs) ys a = ground (arith, contains-append xs ys a)

pub contains-erase :
    (a b : ℕ) (xs : List ℕ) → contains (erase a xs) b ≡ (if a == b then false else contains xs b)
contains-erase a b [] = ground arith
contains-erase a b (x ∷ xs) = ground (arith, contains-erase a b xs)

pub erase-Distinct : (a : ℕ) (xs : List ℕ) → Distinct xs → Distinct (erase a xs)
erase-Distinct a [] d = tt
erase-Distinct a (x ∷ xs) d = ground (arith, contains-erase a x xs, erase-Distinct a xs d.1)

pub erase_absent : (a : ℕ) (xs : List ℕ) → contains xs a ≡ false → erase a xs ≡ xs
erase_absent a [] h = refl
erase_absent a (x ∷ xs) h = ground (arith, erase_absent a xs)

-- Erasing a member of a set takes one element away.
pub length-erase :
    (a : ℕ) (xs : List ℕ) → Distinct xs → contains xs a ≡ true → length (erase a xs) + 1 ≡ length xs
length-erase a [] d h = ground arith
length-erase a (x ∷ xs) d h = ground (arith, length-erase a xs d.1, erase_absent a xs)
