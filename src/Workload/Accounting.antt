-- ===== src/Workload/Accounting.antt =====
-- workload/metrics.cpp: the GPU time of a job is its compute time and its idle time.
use nexus_lab.Prelude.{
  ℕ, ◌+◌, ◌-◌, ◌*◌, ◌/◌, ◌≤◌, ◌<◌, ◌≡◌, ◌⊎◌, refl, ap, inl, inr, true, not, ◌&&◌, Option, none,
  some, List, [], ◌∷◌, arith, min, length, ltb, ◌==◌, if◌then◌else◌, Bool-cases, ltb→lt, u64_max,
}
use native.Mathlib.Nat.{div-lt_iff_lt-mul}
use nexus_lab.Prelude.Except.{Error, invalid_argument, logic_error, overflow_error, ok, err}
use nexus_lab.Workload.Model.{JobRecord, JobSnapshot, checked_sum, checked_product}
use nexus_lab.Workload.Metrics.{
  value_or, difference, end_of, is_running, add_progress, compute_at, allocated_from, snapshot_of,
  balanced, inspect,
}

-- What the workers have computed of their steps in `elapsed`.
abbrev pub progress : ℕ → List ℕ → ℕ
progress elapsed [] = 0
progress elapsed (duration ∷ durations) = min duration elapsed + progress elapsed durations

-- The compute time of a job: what it has behind it, and the step that runs.
abbrev pub compute_time : JobRecord → ℕ → ℕ
compute_time r now =
    r.compute_gpu_ns + (if is_running r then progress (now - r.step_started) r.spec.compute else 0)

-- The time from the allocation to `stop` on `workers`.
abbrev pub allocated_time : Option ℕ → ℕ → ℕ → ℕ
allocated_time none stop workers = 0
allocated_time (some start) stop workers = (stop - start) * workers

abbrev pub StartsBy : Option ℕ → ℕ → Type 0
StartsBy none stop = Unit
StartsBy (some start) stop = start ≤ stop

checked_sum_cases :
    (left right : ℕ)
    → left ≤ u64_max
    → ((checked_sum left right ≡ ok (left + right)) × (left + right ≤ u64_max))
      ⊎ (((e : Error) × (checked_sum left right ≡ err e)) × (u64_max < left + right))
unfolding checked_sum
checked_sum_cases left right fits = elim (Bool-cases (ltb (u64_max - left) right)) [
  | inl over ↦ rw over (inr ((_, refl), ground arith))
  | inr room ↦ rw room (inl (refl, ground arith))
]

add_progress_cases :
    (elapsed compute : ℕ) (durations : List ℕ)
    → compute ≤ u64_max
    → (add_progress elapsed durations compute ≡ ok (compute + progress elapsed durations))
      ⊎ (((e : Error) × (add_progress elapsed durations compute ≡ err e))
          × (u64_max < compute + progress elapsed durations))
unfolding add_progress
add_progress_cases elapsed compute [] fits = inl (ap (λ n. ok n) (omega arith))
add_progress_cases elapsed compute (d ∷ ds) fits =
    elim (checked_sum_cases compute (min d elapsed) fits) [
      | inr ((e, bad), over) ↦ inr ((e, rw (bad, add_progress) refl), omega (arith, over))
      | inl (good, room) ↦ elim (add_progress_cases elapsed (compute + min d elapsed) ds room) [
        | inl same ↦ inl (rw (good, add_progress, same) (ap (λ n. ok n) (omega arith)))
        | inr ((e, bad), over) ↦ inr ((e, rw (good, add_progress, bad) refl), omega (arith, over))
      ]
    ]

-- Why there is no account: the step has not begun, a sum or a product is over 64 bits, or there is
-- more compute time than allocated time.
abbrev pub Refuses : JobRecord → ℕ → Type 0
Refuses r now =
    ((is_running r ≡ true) × (now < r.step_started))
    ⊎ (u64_max < compute_time r now)
    ⊎ (u64_max < allocated_time r.allocated_at (end_of r now) (length r.spec.workers))
    ⊎ (allocated_time r.allocated_at (end_of r now) (length r.spec.workers) < compute_time r now)

-- The account of a job at `now`.
abbrev pub Accounts : JobRecord → ℕ → Type 0
Accounts r now =
    ((end_of r now < r.spec.arrival) × (inspect r now ≡ ok (snapshot_of r 0 0 0 0)))
    ⊎ ((s : JobSnapshot) × (inspect r now ≡ ok s)
        × (s.compute_gpu_ns ≡ compute_time r now)
        × (s.compute_gpu_ns + s.idle_gpu_ns
            ≡ allocated_time r.allocated_at (end_of r now) (length r.spec.workers))
        × (s.elapsed_ns + r.spec.arrival ≡ end_of r now))
    ⊎ (((e : Error) × (inspect r now ≡ err e)) × Refuses r now)

compute_at_cases :
    (r : JobRecord) (now : ℕ)
    → r.compute_gpu_ns ≤ u64_max
    → (compute_at r now ≡ ok (compute_time r now))
      ⊎ (((e : Error) × (compute_at r now ≡ err e))
          × (((is_running r ≡ true) × (now < r.step_started)) ⊎ (u64_max < compute_time r now)))
unfolding compute_at
compute_at_cases r now fits = elim (Bool-cases (is_running r)) [
  | inr idle ↦ inl (rw idle (ap (λ n. ok n) (omega arith)))
  | inl running ↦ elim (Bool-cases (ltb now r.step_started)) [
    | inl early ↦ inr (
      (invalid_argument "snapshot precedes current step", rw (running, early) refl),
      inl (running, ltb→lt _ _ early),
    )
    | inr started ↦
        elim (add_progress_cases (now - r.step_started) r.compute_gpu_ns r.spec.compute fits) [
          | inl same ↦ rw (running, started) (inl same)
          | inr (bad, over) ↦ rw (running, started) (inr (bad, inr over))
        ]
  ]
]

difference_exact : (a b : ℕ) → b ≤ a → a ≤ u64_max → difference a b ≡ a - b
difference_exact a b h fits = omega (arith, h, fits)

-- The test by which a product is refused.
product_over :
    (left right : ℕ)
    → (not (right == 0) && ltb (u64_max / right) left) ≡ true
    → u64_max < left * right
product_over left right over = elim (Bool-cases (right == 0)) [
  | inl z ↦ ground arith
  | inr z ↦ (div-lt_iff_lt-mul (ground (arith, z))).0 (ground (arith, over))
]

allocated_from_cases :
    (start : Option ℕ) (stop workers : ℕ)
    → StartsBy start stop
    → stop ≤ u64_max
    → (allocated_from start stop workers ≡ ok (allocated_time start stop workers))
      ⊎ (((e : Error) × (allocated_from start stop workers ≡ err e))
          × (u64_max < allocated_time start stop workers))
unfolding checked_product
allocated_from_cases none stop workers by fits = inl refl
allocated_from_cases (some start) stop workers by fits =
    let exact = difference_exact stop start by fits in
    elim (Bool-cases (not (workers == 0) && ltb (u64_max / workers) (stop - start))) [
      | inl over ↦ inr (
        (overflow_error "workload quantity overflow", rw (exact, over) refl),
        product_over (stop - start) workers over,
      )
      | inr room ↦ inl (rw (exact, room) refl)
    ]

balanced_cases :
    (r : JobRecord) (now compute allocated : ℕ)
    → r.spec.arrival ≤ end_of r now
    → inspect r now ≡ balanced r (end_of r now) compute allocated
    → compute ≡ compute_time r now
    → allocated ≡ allocated_time r.allocated_at (end_of r now) (length r.spec.workers)
    → Accounts r now
balanced_cases r now compute allocated arrived same c a =
    elim (Bool-cases (ltb allocated compute)) [
      | inl over ↦ inr (
          inr (
            (logic_error "GPU compute exceeds allocated time", rw (same, over) refl),
            inr (inr (inr (ground (arith, a, c)))),
          ))
      | inr room ↦ inr (
          inl (
            snapshot_of r compute (allocated - compute) (end_of r now - r.spec.arrival)
                (difference (value_or r.allocated_at (end_of r now)) r.spec.arrival),
            rw (same, room) refl,
            c,
            ground (arith, a),
            omega (arith, arrived),
          ))
    ]

-- For a job whose 64-bit times are in order, `inspect` answers an empty account before the arrival,
-- and else one whose compute time is the job's, with the progress of the step that runs, and whose
-- compute and idle times add up to the allocated time on all workers; or it throws, since the step has
-- not begun, a quantity exceeds 64 bits, or more was computed than allocated.
pub inspect_cases :
    (r : JobRecord) (now : ℕ)
    → r.compute_gpu_ns ≤ u64_max
    → end_of r now ≤ u64_max
    → StartsBy r.allocated_at (end_of r now)
    → Accounts r now
unfolding inspect
inspect_cases r now fits ends by = elim (Bool-cases (ltb (end_of r now) r.spec.arrival)) [
  | inl before ↦ inl (ltb→lt _ _ before, rw (inspect, before) refl)
  | inr arrived ↦ elim (compute_at_cases r now fits) [
    | inr ((e, bad), inl early) ↦ inr (inr ((e, rw (arrived, bad) refl), inl early))
    | inr ((e, bad), inr over) ↦ inr (inr ((e, rw (arrived, bad) refl), inr (inl over)))
    | inl computed ↦
        elim (allocated_from_cases r.allocated_at (end_of r now) (length r.spec.workers) by ends) [
          | inr ((e, bad), over) ↦
              inr (inr ((e, rw (arrived, computed, bad) refl), inr (inr (inl over))))
          | inl allocated ↦
              balanced_cases r now _ _ (ground arith) (rw (arrived, computed, allocated) refl) refl
                refl
        ]
  ]
]
