-- ===== src/Workload/Metrics.antt =====
-- workload/metrics.cpp: the account of a job that `WorkloadEngine::inspect` gives.
use nexus_lab.Prelude.{
  ℕ, ◌+◌, ◌-◌, ◌%◌, Bool, not, ◌&&◌, Option, none, some, List, [], ◌∷◌, min, ltb, if◌then◌else◌,
  length, u64_mod,
}
use nexus_lab.Prelude.Except.{invalid_argument, logic_error, Result, ok, err}
use nexus_lab.Workload.Model.{JobRecord, JobSnapshot, checked_sum, checked_product, terminal}

-- `std::optional::value_or`
abbrev pub value_or : Option ℕ → ℕ → ℕ
value_or none default = default
value_or (some a) default = a

-- The difference of two 64-bit counts, which wraps.
abbrev pub difference : ℕ → ℕ → ℕ
difference a b = (a + u64_mod - b) % u64_mod

abbrev pub end_of : JobRecord → ℕ → ℕ
end_of r now = value_or r.finished now

abbrev pub is_running : JobRecord → Bool
is_running r = r.assigned && not (terminal r.state)

-- The loop over the workers of the step that runs for `elapsed`.
unfoldable pub add_progress : ℕ → List ℕ → ℕ → Result ℕ
add_progress elapsed [] compute = ok compute
add_progress elapsed (duration ∷ durations) compute =
    elim (checked_sum compute (min duration elapsed)) [
      | err e ↦ err e
      | ok next ↦ add_progress elapsed durations next
    ]

-- `compute`
unfoldable pub compute_at : JobRecord → ℕ → Result ℕ
unfolding add_progress
compute_at r now =
    if is_running r
    then (if ltb now r.step_started
        then err (invalid_argument "snapshot precedes current step")
        else add_progress (now - r.step_started) r.spec.compute r.compute_gpu_ns)
    else ok r.compute_gpu_ns

-- `allocated`
abbrev pub allocated_from : Option ℕ → ℕ → ℕ → Result ℕ
allocated_from none stop workers = ok 0
allocated_from (some start) stop workers = checked_product (difference stop start) workers

abbrev pub snapshot_of : JobRecord → ℕ → ℕ → ℕ → ℕ → JobSnapshot
snapshot_of r compute idle elapsed waiting = record {
  id = r.id;
  state = r.state;
  completed_steps = r.step;
  arrival = r.spec.arrival;
  finished = r.finished;
  compute_gpu_ns = compute;
  idle_gpu_ns = idle;
  elapsed_ns = elapsed;
  reason = r.reason;
  allocated_at = r.allocated_at;
  waiting_ns = waiting;
}

-- The end of `inspect`.
abbrev pub balanced : JobRecord → ℕ → ℕ → ℕ → Result JobSnapshot
balanced r stop compute allocated =
    if ltb allocated compute
    then err (logic_error "GPU compute exceeds allocated time")
    else ok (
        snapshot_of r compute (allocated - compute) (stop - r.spec.arrival)
          (difference (value_or r.allocated_at stop) r.spec.arrival))

-- `inspect`
unfoldable pub inspect : JobRecord → ℕ → Result JobSnapshot
unfolding compute_at
inspect r now =
    if ltb (end_of r now) r.spec.arrival
    then ok (snapshot_of r 0 0 0 0)
    else elim (compute_at r now) [
      | err e ↦ err e
      | ok compute ↦ elim (allocated_from r.allocated_at (end_of r now) (length r.spec.workers)) [
        | err e ↦ err e
        | ok allocated ↦ balanced r (end_of r now) compute allocated
      ]
    ]
