-- ===== src/Scheduling/Placing.antt =====
-- scheduling/policy.cpp: what a placement promises, for every policy.
use text.Mathlib.Text.{◌==◌ as str_eq}
use nexus_lab.Prelude.{
  ℕ, zero, suc, ◌≤◌, ◌<◌, ◌≡◌, refl, ap, ◌≢◌, ◌⊎◌, inl, inr, Bool, true, false, not, ◌||◌, none,
  some, List, [], ◌∷◌, arith, ltb, ◌==◌, length, All, contains, Distinct, Bool-cases, Option-cases,
  ==_iff, ltb→lt,
}
use nexus_lab.Prelude.Sorting.{
  select, key_count, Reorders, Reorders-refl, Reorders-trans, sort-Reorders, partition-Reorders,
  select-All, select-passes, select-counts,
}
use nexus_lab.Scheduling.Inventory.{Resource, is_free, find_gpu, gpu_before}
use nexus_lab.Scheduling.Policy.{
  JobRequest, BuiltinPolicy, placed, waiting, rejected, pinned_loop, pinned, compact,
  compact_before, rack_local, find_rack, rack_table, order, score_before, take_gpus, place_free,
  place,
}
use nexus_lab.Scheduling.Sorted.{gpu_of, Ascending, key_count-Ascending, find_gpu-All}

rack_local-Reorders : (xs : List Resource) (count : ℕ) → Reorders xs (rack_local xs count)
unfolding rack_local
rack_local-Reorders xs count = elim (Option-cases (find_rack count (rack_table xs []))) [
  | inl e ↦ rw (e, rack_local) (Reorders-refl xs)
  | inr (rack, e) ↦ rw (e, rack_local) (partition-Reorders (λ (r : Resource). r.rack == rack) xs)
]

-- Whatever the policy, the order is one of the same resources.
order-Reorders :
    (p : BuiltinPolicy) (request : JobRequest) (xs : List Resource)
    → Reorders xs (order p request xs)
unfolding order compact
order-Reorders p request xs =
    let sorted = sort-Reorders gpu_before xs in
    elim (Bool-cases (str_eq p.name "random")) [
      | inl e ↦ rw e (Reorders-trans sorted (sort-Reorders (score_before p.seed request.job) _))
      | inr random ↦ elim (Bool-cases (str_eq p.name "rack-local")) [
        | inl e ↦ rw (random, e) (Reorders-trans sorted (rack_local-Reorders _ request.workers))
        | inr rack ↦ elim (Bool-cases (str_eq p.name "compact")) [
          | inl e ↦
              rw (random, rack, e) (Reorders-trans sorted (sort-Reorders (compact_before _) _))
          | inr e ↦ rw (random, rack, e) sorted
        ]
      ]
    ]

-- The worker is known, healthy and owned by no job.
abbrev pub IsFreeWorker : List Resource → ℕ → Type 0
IsFreeWorker gpus w = (r : Resource) × (find_gpu w gpus ≡ some r) × (is_free r ≡ true)

length-take_gpus : (n : ℕ) (xs : List Resource) → n ≤ length xs → length (take_gpus n xs) ≡ n
unfolding take_gpus
length-take_gpus zero xs h = refl
length-take_gpus (suc n) [] h = absurd (omega arith)
length-take_gpus (suc n) (x ∷ xs) h = omega (arith, length-take_gpus n xs)

take_gpus-All :
    (gpus : List Resource) (n : ℕ) (xs : List Resource)
    → All (λ x. IsFreeWorker gpus x.gpu) xs
    → All (IsFreeWorker gpus) (take_gpus n xs)
unfolding take_gpus
take_gpus-All gpus zero xs h = tt
take_gpus-All gpus (suc n) [] h = tt
take_gpus-All gpus (suc n) (x ∷ xs) h = (h.0, take_gpus-All gpus n xs h.1)

contains-take_gpus :
    (n : ℕ) (xs : List Resource) (a : ℕ)
    → contains (take_gpus n xs) a ≡ true
    → 0 < key_count gpu_of a xs
unfolding take_gpus
contains-take_gpus zero xs a h = cc
contains-take_gpus (suc n) [] a h = cc
contains-take_gpus (suc n) (x ∷ xs) a h = ground (arith, contains-take_gpus n xs a)

take_gpus-Distinct :
    (n : ℕ) (xs : List Resource) → ((a : ℕ) → key_count gpu_of a xs ≤ 1) → Distinct (take_gpus n xs)
unfolding take_gpus
take_gpus-Distinct zero xs h = tt
take_gpus-Distinct (suc n) [] h = tt
take_gpus-Distinct (suc n) (x ∷ xs) h = (
  ground (arith, contains-take_gpus n xs x.gpu, h x.gpu),
  take_gpus-Distinct n xs (λ a. omega (arith, h a)),
)

-- The workers are free, different, and as many as `count`.
pub record Suits (gpus : List Resource) (count : ℕ) (workers : List ℕ) : Type 0 where
  pub size : length workers ≡ count
  pub different : Distinct workers
  pub free : All (IsFreeWorker gpus) workers

free_resources :
    (gpus : List Resource)
    → Ascending gpus
    → All (λ x. IsFreeWorker gpus x.gpu) (select is_free gpus)
free_resources gpus a =
    joined (select is_free gpus)
      (select-All is_free (λ x. find_gpu x.gpu gpus ≡ some x) gpus (find_gpu-All gpus a))
      (select-passes is_free gpus)
  where
    joined :
        (xs : List Resource)
        → All (λ x. find_gpu x.gpu gpus ≡ some x) xs
        → All (λ x. is_free x ≡ true) xs
        → All (λ x. IsFreeWorker gpus x.gpu) xs
    joined [] f g = tt
    joined (x ∷ xs) f g = ((x, f.0, g.0), joined xs f.1 g.1)

place_free-Suits :
    (p : BuiltinPolicy) (request : JobRequest) (gpus : List Resource)
    → Ascending gpus
    → request.workers ≤ length (select is_free gpus)
    → Suits gpus request.workers (take_gpus request.workers (order p request (select is_free gpus)))
place_free-Suits p request gpus a enough =
    let o = order-Reorders p request (select is_free gpus) in
    record {
      size =
          length-take_gpus request.workers (order p request (select is_free gpus))
            (omega (arith, o.size));
      different = take_gpus-Distinct request.workers _ (λ k. omega (
        arith,
        o.counts gpu_of k,
        select-counts is_free gpu_of k gpus,
        key_count-Ascending k gpus a,
      ));
      free = take_gpus-All gpus request.workers _ (o.keeps _ (free_resources gpus a));
    }

absent :
    (a : ℕ) (xs : List ℕ) (set : List ℕ)
    → All (λ w. contains (a ∷ set) w ≡ false) xs
    → (contains xs a ≡ false) × All (λ w. contains set w ≡ false) xs
absent a [] set h = (refl, tt)
absent a (x ∷ xs) set h =
    let (fresh, rest) = absent a xs set h.1 in (ground (arith), (ground arith, rest))

-- What the loop over the pinned workers has seen, where it ends with none that is taken.
abbrev Unblocked : List Resource → List ℕ → List ℕ → Bool → Type 0
Unblocked gpus unique ids blocked =
    (blocked ≡ false)
    × All (IsFreeWorker gpus) ids
    × Distinct ids
    × All (λ w. contains unique w ≡ false) ids

pinned_loop-Unblocked :
    (gpus : List Resource) (unique ids : List ℕ) (blocked : Bool)
    → pinned_loop gpus unique ids blocked ≡ some false
    → Unblocked gpus unique ids blocked
unfolding pinned_loop
pinned_loop-Unblocked gpus unique [] blocked h = (cc, tt, tt, tt)
pinned_loop-Unblocked gpus unique (id ∷ ids) blocked h = elim (Option-cases (find_gpu id gpus)) [
  | inl unknown ↦ absurd (no_answer (rw (unknown, pinned_loop) at h))
  | inr (r, found) ↦ elim (Bool-cases (contains unique id)) [
    | inl twice ↦ absurd (no_answer (rw (found, pinned_loop, twice) at h))
    | inr new ↦
        let (open_, free, different, rest) =
          pinned_loop-Unblocked gpus (id ∷ unique) ids (blocked || not (is_free r))
            (rw (found, pinned_loop, new) at h) in
        let (fresh, others) = absent id ids unique rest in
        (ground arith, ((r, found, ground arith), free), (fresh, different), (new, others))
  ]
]
  where
    no_answer : none ≡ some false → ⊥
    no_answer e = cc

-- How `place` answers, by cases.
abbrev pub PlaceAnswers : BuiltinPolicy → JobRequest → List Resource → Type 0
PlaceAnswers p request gpus =
    (((place p request gpus).outcome ≡ placed)
      × Suits gpus request.workers (place p request gpus).workers)
    ⊎ (((place p request gpus).outcome ≡ waiting)
        × ((place p request gpus).workers ≡ [])
        × ((request.pinned ≢ []) ⊎ (length (select is_free gpus) < request.workers)))
    ⊎ (((place p request gpus).outcome ≡ rejected)
        × ((place p request gpus).workers ≡ [])
        × ((request.pinned ≢ []) ⊎ (request.workers ≡ 0) ⊎ (length gpus < request.workers)))

pinned-answers :
    (p : BuiltinPolicy) (request : JobRequest) (gpus : List Resource)
    → length request.pinned ≡ request.workers
    → request.pinned ≢ []
    → place p request gpus ≡ pinned request gpus
    → PlaceAnswers p request gpus
unfolding pinned
pinned-answers p request gpus size some_pinned same =
    elim (Option-cases (pinned_loop gpus [] request.pinned false)) [
      | inl e ↦ rw same (rw (e, pinned) (inr (inr (refl, refl, inl some_pinned))))
      | inr (true, e) ↦ rw same (rw (e, pinned) (inr (inl (refl, refl, inl some_pinned))))
      | inr (false, e) ↦
          let (_, free, different, _) = pinned_loop-Unblocked gpus [] request.pinned false e in
          rw same (
            rw (e, pinned) (inl (refl, record { size = size; different = different; free = free })))
    ]

place_free-answers :
    (p : BuiltinPolicy) (request : JobRequest) (gpus : List Resource)
    → Ascending gpus
    → place p request gpus ≡ place_free p request (select is_free gpus)
    → PlaceAnswers p request gpus
unfolding place_free
place_free-answers p request gpus a same =
    elim (Bool-cases (ltb (length (select is_free gpus)) request.workers)) [
      | inl few ↦ rw same (rw few (inr (inl (refl, refl, inr (ltb→lt _ _ few)))))
      | inr enough ↦
          rw same (rw enough (inl (refl, place_free-Suits p request gpus a (ground arith))))
    ]

-- On an inventory in order, for every built-in policy: a placement is of as many different workers
-- as requested, all of them known, healthy and free; a request waits, with no worker, only if it
-- pins workers or too few are free, and is rejected, with no worker, only if it pins workers, asks
-- for none, or for more than there are.
pub place_cases :
    (p : BuiltinPolicy) (request : JobRequest) (gpus : List Resource)
    → Ascending gpus
    → PlaceAnswers p request gpus
unfolding place
place_cases p request gpus a = elim (Bool-cases (request.workers == 0)) [
  | inl z ↦ rw z (inr (inr (refl, refl, inr (inl ((==_iff _ _).0 z)))))
  | inr some_workers ↦ elim (Bool-cases (ltb (length gpus) request.workers)) [
    | inl few ↦ rw (some_workers, few) (inr (inr (refl, refl, inr (inr (ltb→lt _ _ few)))))
    | inr enough ↦ elim (Bool-cases (length request.pinned == 0)) [
      | inl unpinned ↦
          place_free-answers p request gpus a (rw (some_workers, enough, unpinned) refl)
      | inr some_pinned ↦ elim (Bool-cases (length request.pinned == request.workers)) [
        | inl size ↦
            pinned-answers p request gpus ((==_iff _ _).0 size) (pins some_pinned)
              (rw (some_workers, enough, some_pinned, size) refl)
        | inr size ↦
            rw (some_workers, enough, some_pinned, size)
              (inr (inr (refl, refl, inl (pins some_pinned))))
      ]
    ]
  ]
]
  where
    pins : (length request.pinned == 0) ≡ false → request.pinned ≢ []
    pins h e = cc (ap length e)
