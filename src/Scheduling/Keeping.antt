-- ===== src/Scheduling/Keeping.antt =====
-- scheduling/inventory.cpp: the inventory stays in order, and what the policies place it accepts.
use nexus_lab.Prelude.{
  ℕ, zero, suc, ◌≤◌, ◌<◌, ◌≡◌, refl, ap, ◌∙◌, ◌⊎◌, inl, inr, Bool, true, false, ◌||◌, Option, none,
  some, List, [], ◌∷◌, map, arith, ltb, ◌==◌, length, All, get_elem?, Bool-cases, ==_iff, All-map,
  ltb→lt,
}
use nexus_lab.Prelude.Except.{Error, length_error, ok, err, Result-cases}
use nexus_lab.Prelude.Sorting.{sort, sort_insert, key_count, sort-Reorders, sort_insert-Reorders}
use nexus_lab.Topology.Resources.{GpuWorker}
use nexus_lab.Scheduling.Inventory.{
  Resource, ResourceInventory, any_owned, lower_bound, find_workers, set_owner, set_owners,
  allocate, release_all, release, set_healthy, set_health_at, set_health, gpu_before,
  fresh_resource, new_inventory,
}
use nexus_lab.Scheduling.Policy.{JobRequest, BuiltinPolicy, placed, place}
use nexus_lab.Scheduling.Sorted.{gpu_of, Ascending}
use nexus_lab.Scheduling.Placing.{place_cases}
use nexus_lab.Scheduling.Allocating.{Suits-allocate}

-- The order is one of the workers' IDs alone.
abbrev SameWorkers : List Resource → List Resource → Type 0
SameWorkers xs ys = map gpu_of ys ≡ map gpu_of xs

set_owner-SameWorkers :
    (owner : Option ℕ) (xs : List Resource) (i : ℕ) → SameWorkers xs (set_owner owner xs i)
unfolding set_owner
set_owner-SameWorkers owner [] i = refl
set_owner-SameWorkers owner (x ∷ xs) zero = refl
set_owner-SameWorkers owner (x ∷ xs) (suc i) =
    ap (λ ids. x.gpu ∷ ids) (set_owner-SameWorkers owner xs i)

set_owners-SameWorkers :
    (owner : Option ℕ) (xs : List Resource) (is : List ℕ) → SameWorkers xs (set_owners owner xs is)
unfolding set_owners
set_owners-SameWorkers owner xs [] = refl
set_owners-SameWorkers owner xs (i ∷ is) =
    set_owners-SameWorkers owner (set_owner owner xs i) is ∙ set_owner-SameWorkers owner xs i

release_all-SameWorkers : (job : ℕ) (xs : List Resource) → SameWorkers xs (release_all job xs)
unfolding release_all
release_all-SameWorkers job [] = refl
release_all-SameWorkers job (x ∷ xs) = ground (arith, release_all-SameWorkers job xs)

set_healthy-SameWorkers :
    (healthy : Bool) (xs : List Resource) (i : ℕ) → SameWorkers xs (set_healthy healthy xs i)
unfolding set_healthy
set_healthy-SameWorkers healthy [] i = refl
set_healthy-SameWorkers healthy (x ∷ xs) zero = refl
set_healthy-SameWorkers healthy (x ∷ xs) (suc i) =
    ap (λ ids. x.gpu ∷ ids) (set_healthy-SameWorkers healthy xs i)

All-SameWorkers :
    (a : ℕ) (xs ys : List Resource)
    → SameWorkers xs ys
    → All (λ x. a < x.gpu) xs
    → All (λ x. a < x.gpu) ys
All-SameWorkers a xs [] s h = tt
All-SameWorkers a [] (y ∷ ys) s h = let impossible : ⊥ = cc in absurd impossible
All-SameWorkers a (x ∷ xs) (y ∷ ys) s h =
    let same : y.gpu ≡ x.gpu = cc in (rw same h.0, All-SameWorkers a xs ys (cc) h.1)

Ascending-SameWorkers : (xs ys : List Resource) → SameWorkers xs ys → Ascending xs → Ascending ys
Ascending-SameWorkers xs [] s h = tt
Ascending-SameWorkers [] (y ∷ ys) s h = let impossible : ⊥ = cc in absurd impossible
Ascending-SameWorkers (x ∷ xs) (y ∷ ys) s h =
    let same : y.gpu ≡ x.gpu = cc in
    let rest : SameWorkers xs ys = cc in
    (rw same (All-SameWorkers x.gpu xs ys rest h.0), Ascending-SameWorkers xs ys rest h.1)

allocate-SameWorkers :
    (job : ℕ) (workers : List ℕ) (v : ResourceInventory)
    → SameWorkers v.gpus (allocate job workers v).1.gpus
unfolding allocate
allocate-SameWorkers job workers v =
    elim (Bool-cases
      (length workers == 0 || ltb (length v.gpus) (length workers) || any_owned job v.gpus)) [
        | inl bad ↦ rw bad refl
        | inr good ↦ elim (Result-cases (find_workers v.gpus [] workers)) [
          | inr (e, failed) ↦ rw (good, failed) refl
          | inl (indices, found) ↦
              rw (good, found) (set_owners-SameWorkers (some job) v.gpus indices)
        ]
      ]

set_health_at-SameWorkers :
    (gpu : ℕ) (healthy : Bool) (index : ℕ) (found : Option Resource) (v : ResourceInventory)
    → SameWorkers v.gpus (set_health_at gpu healthy index found v).1.gpus
unfolding set_health_at
set_health_at-SameWorkers gpu healthy index none v = refl
set_health_at-SameWorkers gpu healthy index (some r) v = elim (Bool-cases (r.gpu == gpu)) [
  | inl e ↦ rw e (set_healthy-SameWorkers healthy v.gpus index)
  | inr e ↦ rw e refl
]

-- Whatever is allocated, released or marked, on every branch, the inventory stays in the order of
-- its workers.
inventory-Ascending :
    (job gpu : ℕ) (workers : List ℕ) (healthy : Bool) (v : ResourceInventory)
    → Ascending v.gpus
    → Ascending (allocate job workers v).1.gpus
      × Ascending (release job v).gpus
      × Ascending (set_health gpu healthy v).1.gpus
unfolding release set_health
inventory-Ascending job gpu workers healthy v a = (
  Ascending-SameWorkers v.gpus _ (allocate-SameWorkers job workers v) a,
  Ascending-SameWorkers v.gpus _ (release_all-SameWorkers job v.gpus) a,
  Ascending-SameWorkers v.gpus _
      (set_health_at-SameWorkers gpu healthy (lower_bound gpu v.gpus)
        (get_elem? v.gpus (lower_bound gpu v.gpus)) v)
      a,
)

placed_size :
    (p : BuiltinPolicy) (request : JobRequest) (gpus : List Resource)
    → (place p request gpus).outcome ≡ placed
    → (0 < request.workers) × (request.workers ≤ length gpus)
unfolding place
placed_size p request gpus h = elim (Bool-cases (request.workers == 0)) [
  | inl z ↦ let impossible : ⊥ = cc (rw z at h) in absurd impossible
  | inr z ↦ elim (Bool-cases (ltb (length gpus) request.workers)) [
    | inl few ↦ let impossible : ⊥ = cc (rw (z, few) at h) in absurd impossible
    | inr enough ↦ (ground arith, ground arith)
  ]
]

-- The inventory accepts every placement: what a built-in policy places on an inventory in order is
-- allocated to the job, if the job owns no worker yet.
pub place-allocate :
    (p : BuiltinPolicy) (request : JobRequest) (v : ResourceInventory)
    → Ascending v.gpus
    → any_owned request.job v.gpus ≡ false
    → (place p request v.gpus).outcome ≡ placed
    → (allocate request.job (place p request v.gpus).workers v).0 ≡ ok tt
place-allocate p request v a unowned h =
    let (positive, fits) = placed_size p request v.gpus h in
    elim (place_cases p request v.gpus a) [
      | inl (_, suits) ↦
          Suits-allocate request.job request.workers _ v a unowned suits positive fits
      | inr (inl (e, _, _)) ↦ let impossible : ⊥ = cc in absurd impossible
      | inr (inr (e, _, _)) ↦ let impossible : ⊥ = cc in absurd impossible
    ]

sort_insert-Ascending :
    (r : Resource) (xs : List Resource)
    → key_count gpu_of r.gpu xs ≡ 0
    → Ascending xs
    → Ascending (sort_insert gpu_before r xs)
unfolding sort_insert
sort_insert-Ascending r [] absent a = (tt, tt)
sort_insert-Ascending r (x ∷ xs) absent a = elim (Bool-cases (ltb x.gpu r.gpu)) [
  | inl less ↦ rw less (
    (sort_insert-Reorders gpu_before r xs).keeps (λ y. x.gpu < y.gpu) (ltb→lt _ _ less, a.0),
    sort_insert-Ascending r xs (ground arith) a.1,
  )
  | inr more ↦
      let first : r.gpu < x.gpu = ground arith in
      rw more
        ((first, All-map (λ y. x.gpu < y.gpu) (λ y. r.gpu < y.gpu) xs (λ y l. omega arith) a.0), a)
]

sort-Ascending :
    (xs : List Resource) → ((a : ℕ) → key_count gpu_of a xs ≤ 1) → Ascending (sort gpu_before xs)
unfolding sort
sort-Ascending [] unique = tt
sort-Ascending (x ∷ xs) unique =
    sort_insert-Ascending x (sort gpu_before xs)
      (ground (arith, (sort-Reorders gpu_before xs).counts gpu_of x.gpu, unique x.gpu))
      (sort-Ascending xs (λ a. omega (arith, unique a)))

-- What the constructor makes of the workers of a graph.
abbrev pub Built : List GpuWorker → Type 0
Built workers =
    ((v : ResourceInventory) × (new_inventory workers ≡ ok v)
      × (1 ≤ length workers)
      × (length workers ≤ 8192)
      × Ascending v.gpus
      × (length v.gpus ≡ length workers)
      × All (λ r. (r.healthy ≡ true) × (r.owner ≡ none)) v.gpus)
    ⊎ ((e : Error) × (new_inventory workers ≡ err e) × ((workers ≡ []) ⊎ (8192 < length workers)))

fresh_counts :
    (a : ℕ) (workers : List GpuWorker)
    → key_count gpu_of a (map fresh_resource workers)
      ≡ key_count (λ (w : GpuWorker). w.id) a workers
fresh_counts a [] = refl
fresh_counts a (w ∷ ws) = omega (arith, fresh_counts a ws)

fresh_All :
    (workers : List GpuWorker)
    → All (λ (r : Resource). (r.healthy ≡ true) × (r.owner ≡ none)) (map fresh_resource workers)
fresh_All [] = tt
fresh_All (w ∷ ws) = ((refl, refl), fresh_All ws)

fresh_length : (workers : List GpuWorker) → length (map fresh_resource workers) ≡ length workers
fresh_length [] = refl
fresh_length (w ∷ ws) = omega (arith, fresh_length ws)

-- Of workers with different IDs the constructor makes an inventory in order, with every worker
-- healthy and free, exactly if there are 1 to 8192 of them.
pub new_inventory_cases :
    (workers : List GpuWorker)
    → ((a : ℕ) → key_count (λ (w : GpuWorker). w.id) a workers ≤ 1)
    → Built workers
unfolding new_inventory
new_inventory_cases workers unique = elim (Bool-cases (length workers == 0)) [
  | inl z ↦ inr (too_many, rw z refl, inl (nothing workers z))
  | inr z ↦ elim (Bool-cases (ltb 8192 (length workers))) [
    | inl l ↦ inr (too_many, rw (z, l) refl, inr (ltb→lt _ _ l))
    | inr l ↦
        let sorted = sort-Reorders gpu_before (map fresh_resource workers) in
        inl (
          record { gpus = sort gpu_before (map fresh_resource workers) },
          rw (z, l) refl,
          ground (arith, z),
          ground (arith, l),
          sort-Ascending _ (λ a. omega (arith, fresh_counts a workers, unique a)),
          sorted.size ∙ fresh_length workers,
          sorted.keeps _ (fresh_All workers),
        )
  ]
]
  where
    too_many : Error
    too_many = length_error "scheduler inventory requires 1..8192 GPUs"

    nothing : (ws : List GpuWorker) → (length ws == 0) ≡ true → ws ≡ []
    nothing [] h = refl
    nothing (w ∷ ws) h = absurd (omega (arith, (==_iff _ _).0 h))
