-- ===== src/Sim/Simulation.antt =====
-- sim/simulation.hpp and simulation.cpp: the simulation object. Its state, and the operations that
-- handlers call through a `SimulationContext`; `Run` has the dispatch loop.
use nexus_lab.Prelude.{
  ℕ, ◌+◌, ◌-◌, ◌%◌, Bool, true, false, ◌||◌, Option, none, some, List, [], ◌∷◌, length, ◌==◌,
  if◌then◌else◌, has_value, u64_mod,
}
use nexus_lab.Prelude.Except.{Result, ok, err}
use nexus_lab.Prelude.State.{M, ◌>>=◌, get, modify, when}
use nexus_lab.Telemetry.Records.{
  Correlation, no_correlation, TelemetryObservation, simulation, SimulationTransition,
}
use nexus_lab.Sim.Event.{Event, EventPriority, EventPayloadKind, payload_kind}
use nexus_lab.Sim.EventId
use nexus_lab.Sim.EventId.{EventIdGenerator}
use nexus_lab.Sim.EventQueue
use nexus_lab.Sim.EventQueue.{EventQueue}
use nexus_lab.Sim.Rng.{DeterministicRng}
use nexus_lab.Sim.Trace
use nexus_lab.Sim.Trace.{TraceAction, scheduled, cancelled, TraceLog, TraceMode, StopReason}
use nexus_lab.Sim.Env.{Env}

pub data Lifecycle : Type 0 where
  created running finished : Lifecycle

pub record EventTraceMetadata : Type 0 where
  pub timestamp : ℕ
  pub priority : EventPriority
  pub id : ℕ
  pub cause : Option ℕ
  pub kind : EventPayloadKind

pub record Simulation (G S : Type 0) : Type 0 where
  pub now : ℕ
  pub event_ids : EventIdGenerator
  pub event_queue : EventQueue
  pub rng : DeterministicRng G
  pub trace : TraceLog
  pub telemetry : S
  pub pending_ids : List ℕ
  pub cancelled_ids : List ℕ
  pub trace_metadata : List (ℕ × EventTraceMetadata)
  pub current_event : Option Event
  pub stop_reason : Option StopReason
  pub lifecycle : Lifecycle
  pub dispatched_events : ℕ
  pub cancelled_events : ℕ
  pub telemetry_failed : Bool

-- `std::unordered_map` as an association list: `find`, `contains` and `erase`.
abbrev pub find_metadata : ℕ → List (ℕ × EventTraceMetadata) → Option EventTraceMetadata
find_metadata id [] = none
find_metadata id ((i, m) ∷ rest) = if i == id then some m else find_metadata id rest

abbrev pub erase_metadata : ℕ → List (ℕ × EventTraceMetadata) → List (ℕ × EventTraceMetadata)
erase_metadata id [] = []
erase_metadata id ((i, m) ∷ rest) =
    if i == id then erase_metadata id rest else (i, m) ∷ erase_metadata id rest

unfoldable pub event_trace_metadata : Event → EventTraceMetadata
event_trace_metadata e = record {
  timestamp = e.timestamp;
  priority = e.priority;
  id = e.id;
  cause = e.cause;
  kind = payload_kind e.payload;
}

abbrev pub is_finished : Lifecycle → Bool
is_finished finished = true
is_finished _ = false

abbrev pub is_running : Lifecycle → Bool
is_running running = true
is_running _ = false

abbrev pub is_created : Lifecycle → Bool
is_created created = true
is_created _ = false

-- `current_event_.has_value() ? current_event_->id : nullopt`, and the same of the cause
abbrev pub event_id : Option Event → Option ℕ
event_id none = none
event_id (some e) = some e.id

abbrev pub event_cause : Option Event → Option ℕ
event_cause none = none
event_cause (some e) = e.cause

abbrev pub metadata_cause : Option EventTraceMetadata → Option ℕ
metadata_cause none = none
metadata_cause (some m) = m.cause

abbrev pub settle :
    {G S : Type 0} → Simulation G S → Result (Unit {0}) × S → Result (Unit {0}) × Simulation G S
settle s (ok u, sink) = (ok tt, record s { telemetry = sink })
settle s (err e, sink) = (err e, record s { telemetry = sink; telemetry_failed = true })

-- A record of the trace about one event.
abbrev pub event_entry :
    TraceAction → ℕ → EventTraceMetadata → Option StopReason → Trace.TraceRecord
event_entry action recorded_at m reason = record {
  action = action;
  recorded_at = recorded_at;
  event_id = some m.id;
  cause = m.cause;
  event_timestamp = some m.timestamp;
  priority = some m.priority;
  payload_kind = some m.kind;
  stop_reason = reason;
  error = none;
}

-- The `try` block of `schedule` up to the push: the metadata is stored unless a record is there.
abbrev pub store_metadata :
    Bool
    → EventTraceMetadata
    → List (ℕ × EventTraceMetadata)
    → Option (List (ℕ × EventTraceMetadata))
store_metadata false m table = some table
store_metadata true m table =
    if has_value (find_metadata m.id table) then none else some ((m.id, m) ∷ table)

module _ {G S : Type 0} where
  -- `pending_ids_.size() - cancelled_ids_.size()`
  abbrev pub pending_count : Simulation G S → ℕ
  pending_count s = (length s.pending_ids + u64_mod - length s.cancelled_ids) % u64_mod

  unfoldable pub record_event :
      TraceAction → ℕ → EventTraceMetadata → Option StopReason → M (Simulation G S) (Unit {0})
  record_event action recorded_at m reason =
      modify
        λ s. record s { trace = Trace.append (event_entry action recorded_at m reason) s.trace }

  abbrev pub trace_enabled : Simulation G S → Bool
  trace_enabled s = Trace.is_enabled s.trace.mode

module _ {G S : Type 0} (env : Env G S) where
  -- The constructor.
  unfoldable pub new : ℕ → TraceMode → S → Simulation G S
  new seed mode sink = record {
    now = 0;
    event_ids = EventId.generator 0;
    event_queue = EventQueue.empty_queue;
    rng = record { engine = env.seeded seed; draw_count = 0 };
    trace = Trace.new_log mode;
    telemetry = sink;
    pending_ids = [];
    cancelled_ids = [];
    trace_metadata = [];
    current_event = none;
    stop_reason = none;
    lifecycle = created;
    dispatched_events = 0;
    cancelled_events = 0;
    telemetry_failed = false;
  }

  -- A call of the sink; `telemetry_failed_` is set on the way of an exception.
  unfoldable pub record_telemetry :
      Correlation → TelemetryObservation → M (Simulation G S) (Unit {0})
  record_telemetry c o s = settle s (env.record_observation s.now c o s.telemetry)

  abbrev pub telemetry_enabled : Simulation G S → Bool
  telemetry_enabled s = env.enabled s.telemetry

  abbrev pub observed : Simulation G S → Bool
  observed s = trace_enabled s || telemetry_enabled s

  unfoldable pub emit_simulation_observation :
      SimulationTransition → Option ℕ → Option ℕ → M (Simulation G S) (Unit {0})
  emit_simulation_observation transition event cause = do
    s ← get
    when (telemetry_enabled s) (
        record_telemetry (record no_correlation { event = event; cause = cause })
          (simulation (record { transition = transition; pending_events = pending_count s })))

  unfoldable pub emit_metric : TelemetryObservation → M (Simulation G S) (Unit {0})
  emit_metric observation = do
    s ← get
    let event = event_id s.current_event
    let cause = event_cause s.current_event
    when (telemetry_enabled s)
        (record_telemetry (record no_correlation { event = event; cause = cause }) observation)
