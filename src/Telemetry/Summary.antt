-- ===== src/Telemetry/Summary.antt =====
-- telemetry/summary.hpp and summary.cpp: the builder behind a session. It keeps the metrics, and the
-- attribution of the jobs; the `std::map` of the jobs is a list in the order of their IDs.
use nexus_lab.Prelude.{
  ℕ, ◌+◌, ◌-◌, ◌%◌, Bool, true, false, Option, none, some, List, [], ◌∷◌, map, ltb, ◌==◌,
  if◌then◌else◌, has_value, length, u64_mod,
}
use nexus_lab.Prelude.State.{M, and_then}
use nexus_lab.Prelude.Except.{invalid_argument, logic_error, length_error, Result, ok, err}
use nexus_lab.Telemetry.Metrics.{
  MetricId, job_communication_ns, job_synchronization_wait_ns, job_straggler_delay_ns,
}
use nexus_lab.Telemetry.Records.{Correlation, TelemetryObservation, JobObservation}
use nexus_lab.Telemetry.Registry
use nexus_lab.Telemetry.Registry.{
  MetricRegistry, MetricSeriesSnapshot, increment, set_gauge, observe, validate_increment,
  validate_set_gauge, validate_observe, find_metric, snapshots,
}
use nexus_lab.Telemetry.Attribution.{JobAttributionSnapshot, JobState, add_interval, transition}
use nexus_lab.Telemetry.Session.{SummaryOperations, regresses}

pub record SummaryBuilder : Type 0 where
  pub metrics : MetricRegistry
  pub jobs : List (ℕ × JobState)
  pub last_timestamp : Option ℕ
  pub maximum_metric_series : ℕ
  pub is_finalized : Bool

-- The constructor.
unfoldable pub new_builder : ℕ → ℕ → Result SummaryBuilder
new_builder maximum_series maximum_boundaries =
    elim (Registry.new_registry maximum_series maximum_boundaries) [
      | err e ↦ err e
      | ok metrics ↦ ok (record {
        metrics = metrics;
        jobs = [];
        last_timestamp = none;
        maximum_metric_series = maximum_series;
        is_finalized = false;
      })
    ]

unfoldable pub validate_metric_observation :
    MetricRegistry → TelemetryObservation → Result (Unit {0})
validate_metric_observation r (TelemetryObservation.counter o) =
    validate_increment o.metric o.labels o.amount r
validate_metric_observation r (TelemetryObservation.gauge o) =
    validate_set_gauge o.metric o.labels o.amount r
validate_metric_observation r (TelemetryObservation.histogram o) =
    validate_observe o.metric o.labels o.amount r
validate_metric_observation r _ = ok tt

unfoldable pub apply_metric_observation : TelemetryObservation → M MetricRegistry (Unit {0})
apply_metric_observation (TelemetryObservation.counter o) r = increment o.metric o.labels o.amount r
apply_metric_observation (TelemetryObservation.gauge o) r = set_gauge o.metric o.labels o.amount r
apply_metric_observation (TelemetryObservation.histogram o) r = observe o.metric o.labels o.amount r
apply_metric_observation _ r = (ok tt, r)

-- `jobs_.find(job)`
unfoldable pub find_job : ℕ → List (ℕ × JobState) → Option JobState
find_job job [] = none
find_job job ((id, state) ∷ rest) = if id == job then some state else find_job job rest

-- `jobs_.insert_or_assign(job, state)`
unfoldable pub insert_job : ℕ → JobState → List (ℕ × JobState) → List (ℕ × JobState)
insert_job job state [] = (job, state) ∷ []
insert_job job state ((id, other) ∷ rest) =
    if id == job
    then (id, state) ∷ rest
    else if ltb job id
    then (job, state) ∷ (id, other) ∷ rest
    else (id, other) ∷ insert_job job state rest

-- `std::get_if<JobObservation>`
abbrev pub job_observation : TelemetryObservation → Option JobObservation
job_observation (TelemetryObservation.job o) = some o
job_observation _ = none

-- The metrics at the end of a job, with their amounts.
abbrev pub terminal_values : JobAttributionSnapshot → List (MetricId × ℕ)
terminal_values s =
    (job_communication_ns, s.communication_ns)
    ∷ (job_synchronization_wait_ns, s.synchronization_wait_ns)
    ∷ (job_straggler_delay_ns, s.straggler_delay_ns)
    ∷ []

abbrev pub count_missing : Option MetricSeriesSnapshot → ℕ → ℕ
count_missing none missing = missing + 1
count_missing (some s) missing = missing

-- The loop of `validate_terminal_metrics`: the number of series that are missing.
unfoldable pub validate_values : MetricRegistry → List (MetricId × ℕ) → ℕ → Result ℕ
validate_values r [] missing = ok missing
validate_values r ((metric, amount) ∷ values) missing = elim (find_metric metric [] r) [
  | err e ↦ err e
  | ok found ↦ elim (validate_increment metric [] amount r) [
    | err e ↦ err e
    | ok valid ↦ validate_values r values (count_missing found missing)
  ]
]

unfoldable pub validate_terminal_metrics : JobState → SummaryBuilder → Result (Unit {0})
unfolding validate_values
validate_terminal_metrics state b =
    elim (validate_values b.metrics (terminal_values state.snapshot) 0) [
      | err e ↦ err e
      | ok missing ↦
          if ltb ((b.maximum_metric_series + u64_mod - length b.metrics.series) % u64_mod) missing
          then err (length_error "telemetry metric series limit exceeded")
          else ok tt
    ]

-- `apply_terminal_metrics`, one increment after the other.
unfoldable pub increment_all : List (MetricId × ℕ) → M MetricRegistry (Unit {0})
increment_all [] r = (ok tt, r)
increment_all ((metric, amount) ∷ values) r =
    and_then (increment metric [] amount r) (λ done s. increment_all values s)

-- `transition` of the job of an observation.
abbrev pub job_transition : ℕ → ℕ → Bool → JobObservation → SummaryBuilder → Result JobState
job_transition job timestamp active o b =
    transition (find_job job b.jobs) job timestamp o.transition active

-- The part of `validate` for the observation of a job.
unfoldable pub validate_job :
    ℕ → Correlation → Option JobObservation → SummaryBuilder → Result (Unit {0})
unfolding find_job transition validate_terminal_metrics
validate_job timestamp correlation none b = ok tt
validate_job timestamp correlation (some o) b = elim correlation.job [
  | none ↦ err (invalid_argument "job telemetry observation requires job correlation")
  | some job ↦ elim (job_transition job timestamp (has_value correlation.collective) o b) [
    | err e ↦ err e
    | ok next ↦ if next.snapshot.terminal then validate_terminal_metrics next b else ok tt
  ]
]

unfoldable pub validate :
    ℕ → Correlation → TelemetryObservation → SummaryBuilder → Result (Unit {0})
unfolding validate_metric_observation validate_job
validate timestamp correlation observation b =
    if b.is_finalized
    then err (logic_error "cannot add to a finalized telemetry summary")
    else if regresses timestamp b.last_timestamp
    then err (invalid_argument "telemetry summary timestamp regressed")
    else elim (validate_metric_observation b.metrics observation) [
      | err e ↦ err e
      | ok valid ↦ validate_job timestamp correlation (job_observation observation) b
    ]

abbrev pub with_metrics :
    Result (Unit {0}) × MetricRegistry → SummaryBuilder → Result (Unit {0}) × SummaryBuilder
with_metrics (answer, r) b = (answer, record b { metrics = r })

-- `apply_terminal_metrics`, if the job ends.
unfoldable pub end_metrics : JobState → M SummaryBuilder (Unit {0})
unfolding increment_all
end_metrics next b =
    if next.snapshot.terminal
    then with_metrics (increment_all (terminal_values next.snapshot) b.metrics) b
    else (ok tt, b)

unfoldable pub store_job : ℕ → JobState → M SummaryBuilder (Unit {0})
unfolding insert_job
store_job job next b = (ok tt, record b { jobs = insert_job job next b.jobs })

-- `consume` for the next state of a job.
unfoldable pub consume_next : ℕ → Result JobState → M SummaryBuilder (Unit {0})
unfolding end_metrics store_job
consume_next job (err e) b = (err e, b)
consume_next job (ok next) b = and_then (end_metrics next b) (λ done c. store_job job next c)

-- `consume` for the observation of a job, if it names one.
unfoldable pub consume_of : ℕ → Bool → JobObservation → Option ℕ → M SummaryBuilder (Unit {0})
unfolding consume_next
consume_of timestamp active o none b =
    (err (logic_error "validated job telemetry lost its correlation"), b)
consume_of timestamp active o (some job) b =
    consume_next job (job_transition job timestamp active o b) b

-- The part of `consume` for the observation of a job.
unfoldable pub consume_job : ℕ → Correlation → Option JobObservation → M SummaryBuilder (Unit {0})
unfolding consume_of
consume_job timestamp correlation none b = (ok tt, b)
consume_job timestamp correlation (some o) b =
    consume_of timestamp (has_value correlation.collective) o correlation.job b

-- `consume` behind `validate`.
unfoldable pub consume_valid : ℕ → Correlation → TelemetryObservation → M SummaryBuilder (Unit {0})
unfolding apply_metric_observation consume_job
consume_valid timestamp correlation observation b =
    and_then (with_metrics (apply_metric_observation observation b.metrics) b) (λ done c.
      and_then (consume_job timestamp correlation (job_observation observation) c)
        (λ done' d. (ok tt, record d { last_timestamp = some timestamp })))

unfoldable pub consume : ℕ → Correlation → TelemetryObservation → M SummaryBuilder (Unit {0})
unfolding validate consume_valid
consume timestamp correlation observation b = elim (validate timestamp correlation observation b) [
  | err e ↦ (err e, b)
  | ok valid ↦ consume_valid timestamp correlation observation b
]

-- The time since `last`, a 64-bit difference that wraps.
abbrev pub elapsed : ℕ → ℕ → ℕ
elapsed timestamp last = (timestamp + u64_mod - last) % u64_mod

-- The state of a job at the end of the summary, with the interval of its phase.
unfoldable pub close_job : ℕ → JobState → Result JobState
unfolding add_interval
close_job timestamp state =
    if state.snapshot.terminal
    then ok state
    else elim (add_interval state.snapshot state.phase (elapsed timestamp state.last_transition)) [
      | err e ↦ err e
      | ok snapshot ↦ ok (record state { snapshot = snapshot; last_transition = timestamp })
    ]

-- A step of the loop of `finalize`: an exception leaves the jobs behind it as they were.
abbrev pub close_with :
    ℕ
    → JobState
    → List (ℕ × JobState)
    → Result JobState
    → Result (Unit {0}) × List (ℕ × JobState)
    → Result (Unit {0}) × List (ℕ × JobState)
close_with id state rest (err e) r = (err e, (id, state) ∷ rest)
close_with id state rest (ok next) (answer, others) = (answer, (id, next) ∷ others)

unfoldable pub close_jobs : ℕ → List (ℕ × JobState) → Result (Unit {0}) × List (ℕ × JobState)
unfolding close_job
close_jobs timestamp [] = (ok tt, [])
close_jobs timestamp ((id, state) ∷ rest) =
    close_with id state rest (close_job timestamp state) (close_jobs timestamp rest)

abbrev pub closed : ℕ → Result (Unit {0}) × List (ℕ × JobState) → M SummaryBuilder (Unit {0})
closed timestamp (err e, jobs) b = (err e, record b { jobs = jobs })
closed timestamp (ok done, jobs) b =
    (ok tt, record b { jobs = jobs; last_timestamp = some timestamp; is_finalized = true })

unfoldable pub finalize : ℕ → M SummaryBuilder (Unit {0})
unfolding close_jobs
finalize timestamp b =
    if b.is_finalized
    then (err (logic_error "telemetry summary is already finalized"), b)
    else if regresses timestamp b.last_timestamp
    then (err (invalid_argument "telemetry summary final timestamp regressed"), b)
    else closed timestamp (close_jobs timestamp b.jobs) b

abbrev pub attribution_of : ℕ × JobState → JobAttributionSnapshot
attribution_of (job, state) = state.snapshot

unfoldable pub job_attributions : SummaryBuilder → List JobAttributionSnapshot
job_attributions b = map attribution_of b.jobs

-- The operations that a session calls.
abbrev pub summary_operations : SummaryOperations SummaryBuilder
summary_operations = record {
  created = new_builder;
  check = validate;
  consume = consume;
  close = finalize;
  metric_snapshots = λ b. snapshots b.metrics;
}
