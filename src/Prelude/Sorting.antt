-- ===== src/Prelude/Sorting.antt =====
-- `std::sort` and `std::stable_partition`, as what they leave: an insertion sort and two filters.
use Prim.Native.Nat.{ℕ, ◌+◌, ◌≤◌}
use mathlib.Core.Path.{◌≡◌, refl, ◌∙◌}
use mathlib.Core.Logic.{inl, inr}
use mathlib.Core.Bool.{Bool, true}
use mathlib.Core.List.{List, [], ◌∷◌, ◌++◌}
use native.Mathlib.Omega.{arith}
use nexus_lab.Prelude.Tests.{◌==◌, if◌then◌else◌, Bool-cases}
use nexus_lab.Prelude.Lists.{length, All}

module _ {ℓ} {A : Type ℓ} (before : A → A → Bool) where
  unfoldable pub sort_insert : A → List A → List A
  sort_insert a [] = a ∷ []
  sort_insert a (x ∷ xs) = if before x a then x ∷ sort_insert a xs else a ∷ x ∷ xs

  unfoldable pub sort : List A → List A
  unfolding sort_insert
  sort [] = []
  sort (x ∷ xs) = sort_insert x (sort xs)

module _ {ℓ} {A : Type ℓ} (test : A → Bool) where
  unfoldable pub select : List A → List A
  select [] = []
  select (x ∷ xs) = if test x then x ∷ select xs else select xs

  unfoldable pub reject : List A → List A
  reject [] = []
  reject (x ∷ xs) = if test x then reject xs else x ∷ reject xs

  unfoldable pub partition : List A → List A
  unfolding select reject
  partition xs = select xs ++ reject xs

-- How often the key `a` stands in a list.
abbrev pub key_count {ℓ} : {A : Type ℓ} → (A → ℕ) → ℕ → List A → ℕ
key_count key a [] = 0
key_count key a (x ∷ xs) = (if key x == a then 1 else 0) + key_count key a xs

-- The same elements in another order, as far as a predicate and a key tell.
pub record Reorders {ℓ} {A : Type ℓ} (xs ys : List A) : Type (ℓ + 1) where
  pub keeps : (P : A → Type ℓ) → All P xs → All P ys
  pub counts : (key : A → ℕ) (a : ℕ) → key_count key a ys ≡ key_count key a xs
  pub size : length ys ≡ length xs

module _ {ℓ} {A : Type ℓ} where
  pub Reorders-refl : (xs : List A) → Reorders xs xs
  Reorders-refl xs = record { keeps = λ P h. h; counts = λ key a. refl; size = refl }

  pub Reorders-trans : {xs ys zs : List A} → Reorders xs ys → Reorders ys zs → Reorders xs zs
  Reorders-trans p q = record {
    keeps = λ P h. q.keeps P (p.keeps P h);
    counts = λ key a. q.counts key a ∙ p.counts key a;
    size = q.size ∙ p.size;
  }

  Reorders-cons : (x : A) {xs ys : List A} → Reorders xs ys → Reorders (x ∷ xs) (x ∷ ys)
  Reorders-cons x p = record {
    keeps = λ P h. (h.0, p.keeps P h.1);
    counts = λ key a. omega (arith, p.counts key a);
    size = omega (arith, p.size);
  }

  Reorders-swap : (x y : A) (xs : List A) → Reorders (x ∷ y ∷ xs) (y ∷ x ∷ xs)
  Reorders-swap x y xs = record {
    keeps = λ P h. (h.1.0, (h.0, h.1.1));
    counts = λ key a. omega arith;
    size = refl;
  }

  -- Where an element goes in, and nothing is lost.
  Reorders-middle : (x : A) (xs ys : List A) → Reorders (x ∷ xs ++ ys) (xs ++ (x ∷ ys))
  Reorders-middle x [] ys = Reorders-refl (x ∷ ys)
  Reorders-middle x (y ∷ xs) ys =
      Reorders-trans (Reorders-swap x y (xs ++ ys)) (Reorders-cons y (Reorders-middle x xs ys))

module _ {ℓ} {A : Type ℓ} (before : A → A → Bool) where
  pub sort_insert-Reorders : (a : A) (xs : List A) → Reorders (a ∷ xs) (sort_insert before a xs)
  unfolding sort_insert
  sort_insert-Reorders a [] = Reorders-refl (a ∷ [])
  sort_insert-Reorders a (x ∷ xs) = elim (Bool-cases (before x a)) [
    | inl e ↦
        rw e (Reorders-trans (Reorders-swap a x xs) (Reorders-cons x (sort_insert-Reorders a xs)))
    | inr e ↦ rw e (Reorders-refl (a ∷ x ∷ xs))
  ]

  -- A sort loses and copies nothing.
  pub sort-Reorders : (xs : List A) → Reorders xs (sort before xs)
  unfolding sort
  sort-Reorders [] = Reorders-refl []
  sort-Reorders (x ∷ xs) =
      Reorders-trans (Reorders-cons x (sort-Reorders xs)) (sort_insert-Reorders x (sort before xs))

module _ {ℓ} {A : Type ℓ} (test : A → Bool) where
  -- Nor does a partition.
  pub partition-Reorders : (xs : List A) → Reorders xs (partition test xs)
  unfolding partition select reject
  partition-Reorders [] = Reorders-refl []
  partition-Reorders (x ∷ xs) = elim (Bool-cases (test x)) [
    | inl e ↦ rw e (Reorders-cons x (partition-Reorders xs))
    | inr e ↦ rw e (
        Reorders-trans (Reorders-cons x (partition-Reorders xs))
          (Reorders-middle x (select test xs) (reject test xs)))
  ]

  pub select-All : (P : A → Type ℓ) (xs : List A) → All P xs → All P (select test xs)
  unfolding select
  select-All P [] h = tt
  select-All P (x ∷ xs) h = elim (Bool-cases (test x)) [
    | inl e ↦ rw e (h.0, select-All P xs h.1)
    | inr e ↦ rw e (select-All P xs h.1)
  ]

  pub select-passes : (xs : List A) → All (λ x. test x ≡ true) (select test xs)
  unfolding select
  select-passes [] = tt
  select-passes (x ∷ xs) = elim (Bool-cases (test x)) [
    | inl e ↦ rw e (e, select-passes xs)
    | inr e ↦ rw e (select-passes xs)
  ]

  pub select-counts :
      (key : A → ℕ) (a : ℕ) (xs : List A) → key_count key a (select test xs) ≤ key_count key a xs
  unfolding select
  select-counts key a [] = omega arith
  select-counts key a (x ∷ xs) = elim (Bool-cases (test x)) [
    | inl e ↦ rw e (omega (arith, select-counts key a xs))
    | inr e ↦ rw e (omega (arith, select-counts key a xs))
  ]
