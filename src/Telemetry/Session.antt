-- ===== src/Telemetry/Session.antt =====
-- telemetry/session.hpp, session.cpp and samples.cpp: a session keeps records and samples, each within
-- a limit of its configuration. The builder of its summary is a parameter.
use nexus_lab.Prelude.{
  ℕ, zero, suc, ◌+◌, ◌-◌, ◌*◌, ◌/◌, Bool, true, false, not, ◌&&◌, ◌||◌, Option, none, some, List,
  [], ◌∷◌, ◌++◌, map, ltb, leb, ◌==◌, if◌then◌else◌, length, u64_max,
}
use nexus_lab.Prelude.Sorting.{select}
use nexus_lab.Prelude.State.{M, and_then}
use nexus_lab.Prelude.Except.{
  invalid_argument, logic_error, length_error, overflow_error, Result, ok, err,
}
use nexus_lab.Telemetry.Configuration.{
  TelemetryMode, off, sampled, full, TelemetryConfiguration, MetricKind, counter, gauge,
}
use nexus_lab.Telemetry.Records.{
  Correlation, TelemetryObservation, correlation_edge_count, is_decision_observation,
}
use nexus_lab.Telemetry.Catalog.{metric_catalog, validate_metric_catalog}
use nexus_lab.Telemetry.Registry.{MetricSeriesKey, MetricSeriesSnapshot}

-- The operations of `SummaryBuilder`, on its state `B`.
pub record SummaryOperations (B : Type 0) : Type 0 where
  pub created : ℕ → ℕ → Result B
  pub check : ℕ → Correlation → TelemetryObservation → B → Result (Unit {0})
  pub consume : ℕ → Correlation → TelemetryObservation → M B (Unit {0})
  pub close : ℕ → M B (Unit {0})
  pub metric_snapshots : B → List MetricSeriesSnapshot

pub record TelemetryRecord : Type 0 where
  pub correlation : Correlation
  pub observation : TelemetryObservation
  pub id : ℕ
  pub timestamp : ℕ

pub record MetricSample : Type 0 where
  pub key : MetricSeriesKey
  pub kind : MetricKind
  pub scalar : ℕ
  pub timestamp : ℕ

pub record TelemetrySession (B : Type 0) : Type 0 where
  pub configuration : TelemetryConfiguration
  pub builder : Option B
  pub records : List TelemetryRecord
  pub samples : List MetricSample
  pub last_timestamp : Option ℕ
  pub next_sample_timestamp : Option ℕ
  pub retained_edges : ℕ
  pub retained_decisions : ℕ
  pub retained_domain_records : ℕ
  pub next_record_id : ℕ
  pub record_ids_exhausted : Bool
  pub is_finalized : Bool

unfoldable pub validate_configuration : TelemetryConfiguration → Result (Unit {0})
validate_configuration c =
    if c.sample_interval_ns == 0
      || c.limits.metric_series == 0
      || c.limits.decision_records == 0
      || c.limits.domain_records == 0
      || c.limits.samples == 0
      || c.limits.histogram_boundaries == 0
      || c.limits.correlation_edges == 0
      || c.limits.serialized_bytes == 0
    then err (invalid_argument "telemetry limits and sample interval must be positive")
    else validate_metric_catalog metric_catalog c.limits.histogram_boundaries

abbrev pub is_off : TelemetryMode → Bool
is_off off = true
is_off _ = false

-- `retains_samples`
abbrev pub keeps_samples : TelemetryMode → Bool
keeps_samples sampled = true
keeps_samples full = true
keeps_samples _ = false

abbrev pub keeps_record : TelemetryMode → Bool → Bool
keeps_record full decision = true
keeps_record sampled decision = decision
keeps_record _ decision = false

abbrev pub is_sampled_metric_kind : MetricKind → Bool
is_sampled_metric_kind counter = true
is_sampled_metric_kind gauge = true
is_sampled_metric_kind _ = false

abbrev pub is_sampled : MetricSeriesSnapshot → Bool
is_sampled s = is_sampled_metric_kind s.state.kind

abbrev pub sample_at : ℕ → MetricSeriesSnapshot → MetricSample
sample_at timestamp s = record {
  key = s.key;
  kind = s.state.kind;
  scalar = s.state.scalar;
  timestamp = timestamp;
}

-- The boundary an interval behind `current`, if it is in the range of time.
abbrev pub next_boundary : ℕ → ℕ → Option ℕ
next_boundary interval current =
    if ltb (u64_max - current) interval then none else some (current + interval)

-- The boundary if it lies before `timestamp`, or at it for an inclusive bound.
abbrev pub due : ℕ → Bool → Option ℕ → Option ℕ
due timestamp inclusive none = none
due timestamp inclusive (some next) =
    if ltb next timestamp || inclusive && next == timestamp then some next else none

-- `skip_empty_sample_boundaries` for the last eligible time.
abbrev pub skip_to : ℕ → ℕ → ℕ → Option ℕ
skip_to interval last_eligible first =
    if ltb last_eligible first
    then some first
    else next_boundary interval (first + (last_eligible - first) / interval * interval)

abbrev pub skip_boundaries : ℕ → ℕ → Bool → Option ℕ → Option ℕ
skip_boundaries interval timestamp inclusive none = none
skip_boundaries interval timestamp true (some first) = skip_to interval timestamp first
skip_boundaries interval timestamp false (some first) =
    if timestamp == 0 then some first else skip_to interval (timestamp - 1) first

-- `last_timestamp.has_value() && timestamp < *last_timestamp`
abbrev pub regresses : ℕ → Option ℕ → Bool
regresses timestamp none = false
regresses timestamp (some last) = ltb timestamp last

module _ {B : Type 0} where
  -- The edges and the ID of a record that is kept.
  unfoldable pub retained_edge_count : ℕ → TelemetrySession B → Result ℕ
  retained_edge_count edges v =
      if ltb (u64_max - v.retained_edges) edges
      then err (overflow_error "telemetry correlation edge overflow")
      else if ltb v.configuration.limits.correlation_edges (v.retained_edges + edges)
      then err (length_error "telemetry correlation edge limit exceeded")
      else if v.record_ids_exhausted
      then err (overflow_error "telemetry record ID sequence exhausted")
      else ok (v.retained_edges + edges)

  -- The tests of a record that is kept; the answer is the number of edges behind it.
  unfoldable pub retained : Bool → ℕ → TelemetrySession B → Result ℕ
  unfolding retained_edge_count
  retained decision edges v =
      if decision && leb v.configuration.limits.decision_records v.retained_decisions
      then err (length_error "telemetry decision record limit exceeded")
      else if not decision && leb v.configuration.limits.domain_records v.retained_domain_records
      then err (length_error "telemetry domain record limit exceeded")
      else retained_edge_count edges v

  unfoldable pub next_edge_count : Bool → Bool → ℕ → TelemetrySession B → Result ℕ
  next_edge_count true decision edges v = retained decision edges v
  next_edge_count false decision edges v = ok v.retained_edges

  -- A record that is kept, at the end of `record`.
  unfoldable pub push_record :
      ℕ → Correlation → TelemetryObservation → ℕ → TelemetrySession B → TelemetrySession B
  push_record timestamp correlation observation edges v =
      let decision = is_decision_observation observation in
      record v {
        records =
            v.records
            ++ record {
              correlation = correlation;
              observation = observation;
              id = v.next_record_id;
              timestamp = timestamp;
            }
              ∷ [];
        retained_edges = edges;
        retained_decisions = if decision then v.retained_decisions + 1 else v.retained_decisions;
        retained_domain_records =
            if decision then v.retained_domain_records else v.retained_domain_records + 1;
        record_ids_exhausted = if v.next_record_id == u64_max then true else v.record_ids_exhausted;
        next_record_id =
            if v.next_record_id == u64_max then v.next_record_id else v.next_record_id + 1;
      }

module _ {B : Type 0} (ops : SummaryOperations B) where
  -- The builder is there unless the mode is off, so that what stands for none is never run.
  abbrev pub snapshots_of : Option B → List MetricSeriesSnapshot
  snapshots_of none = []
  snapshots_of (some b) = ops.metric_snapshots b

  unfoldable pub append_sample_frame : ℕ → M (TelemetrySession B) (Unit {0})
  append_sample_frame timestamp v =
      let frame = select is_sampled (snapshots_of v.builder) in
      if ltb (v.configuration.limits.samples - length v.samples) (length frame)
      then (err (length_error "telemetry sample limit exceeded"), v)
      else (ok tt, record v { samples = v.samples ++ map (sample_at timestamp) frame })

  -- `advance_sample_timestamp`
  abbrev pub advance : ℕ → TelemetrySession B → TelemetrySession B
  advance current v = record v {
    next_sample_timestamp = next_boundary v.configuration.sample_interval_ns current;
  }

  -- The loop of `emit_samples_until`, one boundary for each step of the fuel.
  unfoldable pub sample_loop : ℕ → ℕ → Bool → M (TelemetrySession B) (Unit {0})
  unfolding append_sample_frame
  sample_loop zero timestamp inclusive v = (ok tt, v)
  sample_loop (suc fuel) timestamp inclusive v =
      elim (due timestamp inclusive v.next_sample_timestamp) [
        | none ↦ (ok tt, v)
        | some at ↦
            and_then (append_sample_frame at v)
              (λ done w. sample_loop fuel timestamp inclusive (advance at w))
      ]

  unfoldable pub emit_samples_until : ℕ → Bool → M (TelemetrySession B) (Unit {0})
  unfolding sample_loop
  emit_samples_until timestamp inclusive v =
      if not (keeps_samples v.configuration.mode)
      then (ok tt, v)
      else if length (select is_sampled (snapshots_of v.builder)) == 0
      then (
        ok tt,
        record v {
          next_sample_timestamp =
              skip_boundaries v.configuration.sample_interval_ns timestamp inclusive
                v.next_sample_timestamp;
        },
      )
      else sample_loop (suc timestamp) timestamp inclusive v

  abbrev pub check_builder : ℕ → Correlation → TelemetryObservation → Option B → Result (Unit {0})
  check_builder timestamp correlation observation none = ok tt
  check_builder timestamp correlation observation (some b) =
      ops.check timestamp correlation observation b

  -- A call that changes the builder.
  abbrev pub with_builder : M B (Unit {0}) → Option B → Result (Unit {0}) × Option B
  with_builder call none = (ok tt, none)
  with_builder call (some b) = let (answer, next) = call b in (answer, some next)

  -- The end of `record`, behind `consume`.
  abbrev pub recorded :
      ℕ
      → Correlation
      → TelemetryObservation
      → Bool
      → ℕ
      → Result (Unit {0}) × Option B
      → M (TelemetrySession B) (Unit {0})
  recorded timestamp correlation observation retain edges (err e, b) v =
      (err e, record v { builder = b })
  recorded timestamp correlation observation true edges (ok done, b) v = (
    ok tt,
    record (push_record timestamp correlation observation edges (record v { builder = b })) {
      last_timestamp = some timestamp;
    },
  )
  recorded timestamp correlation observation false edges (ok done, b) v =
      (ok tt, record v { builder = b; last_timestamp = some timestamp })

  unfoldable pub record_checked :
      ℕ → Correlation → TelemetryObservation → Bool → ℕ → M (TelemetrySession B) (Unit {0})
  unfolding emit_samples_until push_record
  record_checked timestamp correlation observation retain edges v =
      and_then (emit_samples_until timestamp false v) (λ done w.
        recorded timestamp correlation observation retain edges
          (with_builder (ops.consume timestamp correlation observation) w.builder) w)

  -- `record` behind the tests of the state and the time.
  unfoldable pub record_in_time :
      ℕ → Correlation → TelemetryObservation → M (TelemetrySession B) (Unit {0})
  unfolding next_edge_count record_checked
  record_in_time timestamp correlation observation v =
      let decision = is_decision_observation observation in
      let retain = keeps_record v.configuration.mode decision in
      elim (next_edge_count retain decision (correlation_edge_count correlation) v) [
        | err e ↦ (err e, v)
        | ok edges ↦ elim (check_builder timestamp correlation observation v.builder) [
          | err e ↦ (err e, v)
          | ok valid ↦ record_checked timestamp correlation observation retain edges v
        ]
      ]

  -- `record`
  unfoldable pub record_observation :
      ℕ → Correlation → TelemetryObservation → M (TelemetrySession B) (Unit {0})
  unfolding record_in_time
  record_observation timestamp correlation observation v =
      if is_off v.configuration.mode
      then (ok tt, v)
      else if v.is_finalized
      then (err (logic_error "cannot record telemetry after finalization"), v)
      else if regresses timestamp v.last_timestamp
      then (err (invalid_argument "telemetry observation timestamp regressed"), v)
      else record_in_time timestamp correlation observation v

  -- The end of `finalize`, behind the call of the builder.
  abbrev pub finalized : ℕ → Result (Unit {0}) × Option B → M (TelemetrySession B) (Unit {0})
  finalized timestamp (err e, b) v = (err e, record v { builder = b })
  finalized timestamp (ok done, b) v =
      (ok tt, record v { builder = b; last_timestamp = some timestamp; is_finalized = true })

  -- `finalize` behind its tests.
  unfoldable pub finalize_in_time : ℕ → M (TelemetrySession B) (Unit {0})
  unfolding emit_samples_until
  finalize_in_time timestamp v =
      and_then (emit_samples_until timestamp true v)
        (λ done w. finalized timestamp (with_builder (ops.close timestamp) w.builder) w)

  unfoldable pub finalize : ℕ → M (TelemetrySession B) (Unit {0})
  unfolding finalize_in_time
  finalize timestamp v =
      if v.is_finalized
      then (err (logic_error "telemetry session is already finalized"), v)
      else if not (is_off v.configuration.mode) && regresses timestamp v.last_timestamp
      then (err (invalid_argument "telemetry final timestamp regressed"), v)
      else finalize_in_time timestamp v

  abbrev pub empty_session : TelemetryConfiguration → Option B → TelemetrySession B
  empty_session c b = record {
    configuration = c;
    builder = b;
    records = [];
    samples = [];
    last_timestamp = none;
    next_sample_timestamp = some c.sample_interval_ns;
    retained_edges = 0;
    retained_decisions = 0;
    retained_domain_records = 0;
    next_record_id = 0;
    record_ids_exhausted = false;
    is_finalized = false;
  }

  -- The constructor.
  unfoldable pub new_session : TelemetryConfiguration → Result (TelemetrySession B)
  new_session c = elim (validate_configuration c) [
    | err e ↦ err e
    | ok valid ↦
        if is_off c.mode
        then ok (empty_session c none)
        else elim (ops.created c.limits.metric_series c.limits.histogram_boundaries) [
          | err e ↦ err e
          | ok b ↦ ok (empty_session c (some b))
        ]
  ]
