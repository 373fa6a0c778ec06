-- ===== src/Telemetry/Tests.antt =====
-- The registry and the session of telemetry/ on concrete inputs: a builder that counts what it consumes.
use nexus_lab.Prelude.{ℕ, true, false, ◌+◌, refl, some, [], ◌∷◌, arith}
use nexus_lab.Prelude.Except.{ok}
use nexus_lab.Telemetry.Configuration.{TelemetryConfiguration, full, default_limits, counter}
use nexus_lab.Telemetry.Metrics.{simulation_dispatched_events}
use nexus_lab.Telemetry.Records.{
  Correlation, TelemetryObservation, no_correlation, compute_completed, run_started,
}
use nexus_lab.Telemetry.Registry.{
  MetricRegistry, MetricSeriesSnapshot, increment, validate_increment, set_gauge,
  validate_set_gauge, observe, validate_observe,
}
use nexus_lab.Telemetry.Validating.{Validated, operations-Validated}
use nexus_lab.Telemetry.Session.{
  SummaryOperations, TelemetrySession, record_observation, finalize, sample_loop, empty_session,
}
use nexus_lab.Telemetry.Sampling.{Done, sample_loop-Done}
use nexus_lab.Telemetry.Accounts.{Within}
use nexus_lab.Telemetry.Limits.{session-Within}
use nexus_lab.Telemetry.Attribution.{JobState, compute, no_time}
use nexus_lab.Telemetry.Balance.{Balanced, TransitionAnswers, transition_cases}
use nexus_lab.Telemetry.Summary
use nexus_lab.Telemetry.Summary.{SummaryBuilder, consume}

abbrev series : ℕ → MetricSeriesSnapshot
series scalar = record {
  key = record { metric = simulation_dispatched_events; labels = [] };
  state = record {
    kind = counter;
    scalar = scalar;
    histogram_buckets = [];
    histogram_count = 0;
    histogram_sum = 0;
  };
}

abbrev registry : MetricRegistry
registry = record { maximum_series = 2; series = series 5 ∷ [] }

operations-Validated_example :
    Validated registry
      (validate_increment simulation_dispatched_events [] 3 registry)
      (increment simulation_dispatched_events [] 3 registry)
    × Validated registry
        (validate_set_gauge simulation_dispatched_events [] 3 registry)
        (set_gauge simulation_dispatched_events [] 3 registry)
    × Validated registry
        (validate_observe simulation_dispatched_events [] 3 registry)
        (observe simulation_dispatched_events [] 3 registry)
operations-Validated_example =
    operations-Validated simulation_dispatched_events [] 3 registry (omega arith) (omega arith)

abbrev counting : SummaryOperations ℕ
counting = record {
  created = λ maximum boundaries. ok 0;
  check = λ time correlation observation n. ok tt;
  consume = λ time correlation observation n. (ok tt, n + 1);
  close = λ time n. (ok tt, n);
  metric_snapshots = λ n. series n ∷ [];
}

abbrev configuration : TelemetryConfiguration
configuration = record { mode = full; sample_interval_ns = 4; limits = default_limits }

abbrev session : TelemetrySession ℕ
session = empty_session counting configuration (some 0)

session-Within_initial : Within session
session-Within_initial = record {
  decisions = refl;
  all = refl;
  edges = refl;
  decision_limit = omega arith;
  domain_limit = omega arith;
  edge_limit = omega arith;
  sample_limit = omega arith;
  numbered = tt;
  next = λ e. refl;
}

abbrev run_start : TelemetryObservation
run_start =
    TelemetryObservation.simulation (record { transition = run_started; pending_events = 2 })

session-Within_example :
    Within (record_observation counting 9 no_correlation run_start session).1
    × Within (finalize counting 9 session).1
session-Within_example =
    session-Within counting 9 no_correlation run_start session session-Within_initial

sample_loop-Done_example : Done counting 9 true (sample_loop counting 10 9 true session)
sample_loop-Done_example = sample_loop-Done counting 10 9 true session (omega arith) (omega arith)

-- A job that was first seen at 10, waited until 15 and has computed since.
abbrev computing : JobState
computing = record {
  snapshot = record (no_time 3) { scheduling_wait_ns = 5 };
  last_transition = 15;
  phase = compute;
}

computing-Balanced : Balanced 10 computing
computing-Balanced = record { sum = refl; marked = refl }

transition_cases_example : TransitionAnswers 10 computing 40 compute_completed false
transition_cases_example =
    transition_cases 10 40 computing compute_completed false computing-Balanced (omega arith)

abbrev builder : SummaryBuilder
builder = record {
  metrics = registry;
  jobs = (3, computing) ∷ [];
  last_timestamp = some 20;
  maximum_metric_series = 2;
  is_finalized = false;
}

abbrev of_job : Correlation
of_job = record no_correlation { job = some 3 }

abbrev computed : TelemetryObservation
computed = TelemetryObservation.job (record {
  transition = compute_completed;
  step = 0;
  bucket = 0;
  worker = 0;
  allocated_workers = 1;
})
