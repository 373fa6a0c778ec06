-- ===== src/Scheduling/Allocating.antt =====
-- `allocate` and `release` of scheduling/inventory.cpp: they take what a placement hands out, and
-- give it back.
use nexus_lab.Prelude.{
  ℕ, zero, suc, ◌≤◌, ◌<◌, ◌≡◌, refl, sym, ap, ◌∙◌, ◌⊎◌, inl, inr, true, false, not, ◌&&◌, ◌||◌,
  none, some, List, [], ◌∷◌, arith, ltb, ◌==◌, if◌then◌else◌, length, All, contains, Distinct,
  get_elem?, Bool-cases, Option-cases, ==_refl,
}
use nexus_lab.Prelude.Except.{Error, ok, err, Result-cases}
use nexus_lab.Scheduling.Inventory.{
  Resource, ResourceInventory, is_free, is_available, owned_by, any_owned, lower_bound,
  find_workers, set_owner, set_owners, allocate, release_all, release,
}
use nexus_lab.Scheduling.Sorted.{Ascending, lower_bound-find_gpu, find_gpu-gpu}
use nexus_lab.Scheduling.Placing.{IsFreeWorker, Suits}

available :
    (gpus : List Resource) (unique : List ℕ) (id : ℕ)
    → Ascending gpus
    → IsFreeWorker gpus id
    → contains unique id ≡ false
    → is_available id unique (get_elem? gpus (lower_bound id gpus)) ≡ true
available gpus unique id a (r, found, free) new =
    rw (lower_bound-find_gpu id gpus r a found) (joined (find_gpu-gpu id gpus r found))
  where
    joined : r.gpu ≡ id → r.gpu == id && is_free r && not (contains unique id) ≡ true
    joined same = rw (same, ==_refl id, free, new) refl

find_workers-ok :
    (gpus : List Resource) (unique ids : List ℕ)
    → Ascending gpus
    → All (IsFreeWorker gpus) ids
    → Distinct ids
    → All (λ w. contains unique w ≡ false) ids
    → (indices : List ℕ) × (find_workers gpus unique ids ≡ ok indices)
unfolding find_workers
find_workers-ok gpus unique [] a free d new = ([], refl)
find_workers-ok gpus unique (id ∷ ids) a free d new =
    let (indices, rest) =
      find_workers-ok gpus (id ∷ unique) ids a free.1 d.1 (widen ids d.0 new.1) in
    (lower_bound id gpus ∷ indices, rw (available gpus unique id a free.0 new.0, rest) refl)
  where
    widen :
        (xs : List ℕ)
        → contains xs id ≡ false
        → All (λ w. contains unique w ≡ false) xs
        → All (λ w. contains (id ∷ unique) w ≡ false) xs
    widen [] h n = tt
    widen (x ∷ xs) h n = (ground arith, widen xs (ground arith) n.1)

unseen : (xs : List ℕ) → All (λ w. contains [] w ≡ false) xs
unseen [] = tt
unseen (x ∷ xs) = (refl, unseen xs)

-- What suits a request for at least one worker is accepted for a job that owns none.
pub Suits-allocate :
    (job count : ℕ) (workers : List ℕ) (v : ResourceInventory)
    → Ascending v.gpus
    → any_owned job v.gpus ≡ false
    → Suits v.gpus count workers
    → 0 < count
    → count ≤ length v.gpus
    → (allocate job workers v).0 ≡ ok tt
unfolding allocate
Suits-allocate job count workers v a unowned s positive fits =
    let (indices, found) =
      find_workers-ok v.gpus [] workers a s.free s.different (unseen workers) in
    let some_workers : (length workers == 0) ≡ false = let n = s.size in ground arith in
    let enough : ltb (length v.gpus) (length workers) ≡ false = let n = s.size in ground arith in
    rw (some_workers, enough, unowned, found) refl

-- The resource at `index` is free or the job's.
abbrev Takes : ℕ → List Resource → ℕ → Type 0
Takes job gpus index =
    (r : Resource) × (get_elem? gpus index ≡ some r) × ((r.owner ≡ none) ⊎ (r.owner ≡ some job))

set_owner-Takes :
    (job : ℕ) (gpus : List Resource) (i j : ℕ)
    → Takes job gpus j
    → Takes job (set_owner (some job) gpus i) j
unfolding set_owner
set_owner-Takes job [] i j t = t
set_owner-Takes job (x ∷ xs) zero zero t = (_, refl, inr refl)
set_owner-Takes job (x ∷ xs) zero (suc j) t = t
set_owner-Takes job (x ∷ xs) (suc i) zero t = t
set_owner-Takes job (x ∷ xs) (suc i) (suc j) t = set_owner-Takes job xs i j t

released :
    (job : ℕ) (x : Resource)
    → (x.owner ≡ none) ⊎ (x.owner ≡ some job)
    → (if owned_by job x.owner then record x { owner = none } else x) ≡ record x { owner = none }
released job x o = ground (arith, ==_refl job)

release_all-set_owner :
    (job : ℕ) (gpus : List Resource) (i : ℕ)
    → Takes job gpus i
    → release_all job (set_owner (some job) gpus i) ≡ release_all job gpus
unfolding release_all set_owner
release_all-set_owner job [] i t = refl
release_all-set_owner job (x ∷ xs) zero (r, e, o) =
    rw (==_refl job) (ap (λ y. y ∷ release_all job xs) (sym (released job x (owner e o))))
  where
    owner :
        some x ≡ some r
        → (r.owner ≡ none) ⊎ (r.owner ≡ some job)
        → (x.owner ≡ none) ⊎ (x.owner ≡ some job)
    owner e o = ground arith
release_all-set_owner job (x ∷ xs) (suc i) t =
    ap (λ rs. (if owned_by job x.owner then record x { owner = none } else x) ∷ rs)
      (release_all-set_owner job xs i t)

All-set_owner :
    (job : ℕ) (gpus : List Resource) (i : ℕ) (indices : List ℕ)
    → All (Takes job gpus) indices
    → All (Takes job (set_owner (some job) gpus i)) indices
All-set_owner job gpus i [] t = tt
All-set_owner job gpus i (j ∷ js) t =
    (set_owner-Takes job gpus i j t.0, All-set_owner job gpus i js t.1)

release_all-set_owners :
    (job : ℕ) (gpus : List Resource) (indices : List ℕ)
    → All (Takes job gpus) indices
    → release_all job (set_owners (some job) gpus indices) ≡ release_all job gpus
unfolding set_owners
release_all-set_owners job gpus [] t = refl
release_all-set_owners job gpus (i ∷ is) t =
    release_all-set_owners job (set_owner (some job) gpus i) is (All-set_owner job gpus i is t.1)
    ∙ release_all-set_owner job gpus i t.0

release_all_unowned :
    (job : ℕ) (gpus : List Resource) → any_owned job gpus ≡ false → release_all job gpus ≡ gpus
unfolding release_all
release_all_unowned job [] h = refl
release_all_unowned job (x ∷ xs) h = ground (arith, release_all_unowned job xs)

available-Takes :
    (job id index : ℕ) (unique : List ℕ) (gpus : List Resource)
    → is_available id unique (get_elem? gpus index) ≡ true
    → Takes job gpus index
available-Takes job id index unique gpus h = elim (Option-cases (get_elem? gpus index)) [
  | inl e ↦ let no_resource : ⊥ = cc (rw e at h) in absurd no_resource
  | inr (r, e) ↦ (r, e, inl (free r (rw e at h)))
]
  where
    free : (r : Resource) → is_available id unique (some r) ≡ true → r.owner ≡ none
    free r h = ground arith

find_workers-Takes :
    (job : ℕ) (gpus : List Resource) (unique ids indices : List ℕ)
    → find_workers gpus unique ids ≡ ok indices
    → All (Takes job gpus) indices
unfolding find_workers
find_workers-Takes job gpus unique [] indices h =
    let none_left : indices ≡ [] = cc in rw none_left tt
find_workers-Takes job gpus unique (id ∷ ids) indices h =
    elim (Bool-cases (is_available id unique (get_elem? gpus (lower_bound id gpus)))) [
      | inr taken ↦ absurd (no_answer (rw taken at h))
      | inl free ↦ elim (Result-cases (find_workers gpus (id ∷ unique) ids)) [
        | inr (e, failed) ↦ absurd (no_answer (rw (free, failed) at h))
        | inl (rest, found) ↦
            let same : indices ≡ lower_bound id gpus ∷ rest = cc (rw (free, found) at h) in
            rw same (
              available-Takes job id (lower_bound id gpus) unique gpus free,
              find_workers-Takes job gpus (id ∷ unique) ids rest found,
            )
      ]
    ]
  where
    no_answer : {e : Error} → err e ≡ ok indices → ⊥
    no_answer h = cc

-- `release` undoes `allocate`: whether the allocation is accepted or not, if the job owned no worker
-- before, the release of it gives the inventory back as it was.
pub release-allocate :
    (job : ℕ) (workers : List ℕ) (v : ResourceInventory)
    → any_owned job v.gpus ≡ false
    → release job (allocate job workers v).1 ≡ v
unfolding release allocate
release-allocate job workers v unowned =
    let same : record { gpus = release_all job v.gpus } ≡ v =
      rw (release_all_unowned job v.gpus unowned) refl in
    elim (Bool-cases
      (length workers == 0 || ltb (length v.gpus) (length workers) || any_owned job v.gpus)) [
        | inl bad ↦ rw bad same
        | inr good ↦ elim (Result-cases (find_workers v.gpus [] workers)) [
          | inr (e, failed) ↦ rw (good, failed) same
          | inl (indices, found) ↦
              rw (good, found)
                (rw
                  (release_all-set_owners job v.gpus indices
                    (find_workers-Takes job v.gpus [] workers indices found))
                  same)
        ]
      ]
