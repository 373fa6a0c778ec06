-- ===== src/Scheduling/Sorted.antt =====
-- What the order of the inventory in scheduling/inventory.cpp gives: every worker is found.
use nexus_lab.Prelude.{
  ℕ, ◌≤◌, ◌<◌, ◌≡◌, refl, inl, inr, some, List, [], ◌∷◌, arith, ◌==◌, All, All-map, get_elem?,
  Bool-cases, ==_iff,
}
use nexus_lab.Prelude.Sorting.{key_count}
use nexus_lab.Scheduling.Inventory.{Resource, find_gpu, lower_bound}

abbrev pub gpu_of : Resource → ℕ
gpu_of r = r.gpu

-- The resources stand in the order of their workers, and no worker stands twice.
abbrev pub Ascending : List Resource → Type 0
Ascending [] = Unit
Ascending (r ∷ rs) = All (λ x. r.gpu < x.gpu) rs × Ascending rs

All-and :
    (P Q : Resource → Type 0) (xs : List Resource) → All P xs → All Q xs → All (λ x. P x × Q x) xs
All-and P Q [] p q = tt
All-and P Q (x ∷ xs) p q = ((p.0, q.0), All-and P Q xs p.1 q.1)

key_count_above : (a : ℕ) (xs : List Resource) → All (λ x. a < x.gpu) xs → key_count gpu_of a xs ≡ 0
key_count_above a [] h = refl
key_count_above a (x ∷ xs) h = ground (arith, key_count_above a xs h.1)

pub key_count-Ascending : (a : ℕ) (xs : List Resource) → Ascending xs → key_count gpu_of a xs ≤ 1
key_count-Ascending a [] h = omega arith
key_count-Ascending a (x ∷ xs) h = elim (Bool-cases (x.gpu == a)) [
  | inl e ↦
      let same : x.gpu ≡ a = (==_iff _ _).0 e in
      rw e (omega (arith, key_count_above a xs (rw same at h.0)))
  | inr e ↦ rw e (omega (arith, key_count-Ascending a xs h.1))
]

-- Every resource is found under its worker.
pub find_gpu-All : (xs : List Resource) → Ascending xs → All (λ x. find_gpu x.gpu xs ≡ some x) xs
unfolding find_gpu
find_gpu-All [] h = tt
find_gpu-All (x ∷ xs) h = (
  first,
  All-map (λ y. (x.gpu < y.gpu) × (find_gpu y.gpu xs ≡ some y))
      (λ y. find_gpu y.gpu (x ∷ xs) ≡ some y) xs (λ y p. skip y p.0 p.1)
      (All-and _ _ xs h.0 (find_gpu-All xs h.1)),
)
  where
    first : find_gpu x.gpu (x ∷ xs) ≡ some x
    first = ground arith

    skip :
        (y : Resource)
        → x.gpu < y.gpu
        → find_gpu y.gpu xs ≡ some y
        → find_gpu y.gpu (x ∷ xs) ≡ some y
    skip y l e = ground arith

find_gpu_above :
    (a id : ℕ) (xs : List Resource) (r : Resource)
    → All (λ x. a < x.gpu) xs
    → find_gpu id xs ≡ some r
    → a < id
unfolding find_gpu
find_gpu_above a id [] r h e = let no_resource : ⊥ = cc in absurd no_resource
find_gpu_above a id (x ∷ xs) r h e = ground (arith, find_gpu_above a id xs r h.1)

-- The binary search finds what the map finds.
pub lower_bound-find_gpu :
    (id : ℕ) (xs : List Resource) (r : Resource)
    → Ascending xs
    → find_gpu id xs ≡ some r
    → get_elem? xs (lower_bound id xs) ≡ some r
unfolding lower_bound find_gpu
lower_bound-find_gpu id [] r h e = let no_resource : ⊥ = cc in absurd no_resource
lower_bound-find_gpu id (x ∷ xs) r h e =
    ground (arith, lower_bound-find_gpu id xs r h.1, find_gpu_above x.gpu id xs r h.0)

pub find_gpu-gpu :
    (id : ℕ) (xs : List Resource) (r : Resource) → find_gpu id xs ≡ some r → r.gpu ≡ id
unfolding find_gpu
find_gpu-gpu id [] r e = let no_resource : ⊥ = cc in absurd no_resource
find_gpu-gpu id (x ∷ xs) r e = ground (arith, find_gpu-gpu id xs r)
