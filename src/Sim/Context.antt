-- ===== src/Sim/Context.antt =====
-- sim/simulation.cpp: the operations that handlers call through a `SimulationContext`.
use nexus_lab.Prelude.{
  ℕ, ◌+◌, ◌%◌, Bool, true, false, Option, none, some, [], ◌∷◌, ltb, if◌then◌else◌, contains,
  has_value, u64_mod,
}
use nexus_lab.Prelude.Except.{invalid_argument, logic_error, Result, ok, err}
use nexus_lab.Prelude.State.{M, ◌>>=◌, ◌>>◌, pure, get, modify, when}
use nexus_lab.Telemetry.Metrics.{simulation_cancelled_events}
use nexus_lab.Telemetry.Records.{
  Correlation, no_correlation, TelemetryObservation, counter, simulation, SimulationTransition,
  event_scheduled, event_cancelled, SimulationTransition,
}
use nexus_lab.Telemetry.Records
use nexus_lab.Sim.Event.{Event, EventSpec}
use nexus_lab.Sim.EventId
use nexus_lab.Sim.EventId.{EventIdGenerator}
use nexus_lab.Sim.EventQueue
use nexus_lab.Sim.EventQueue.{EventQueue}
use nexus_lab.Sim.Rng.{next_u64, uniform_below}
use nexus_lab.Sim.Trace.{scheduled, cancelled, stop_requested, StopReason}
use nexus_lab.Sim.Env.{Env}
use nexus_lab.Sim.Simulation.{
  EventTraceMetadata, Simulation, find_metadata, erase_metadata, event_trace_metadata, is_finished,
  is_running, event_id, metadata_cause, store_metadata, record_event, trace_enabled, observed,
  emit_simulation_observation, emit_metric,
}

-- The event of a specification, caused by the event in dispatch.
abbrev pub event_of : EventSpec → ℕ → Option Event → Event
event_of spec id current = record {
  timestamp = spec.timestamp;
  priority = spec.priority;
  id = id;
  cause = event_id current;
  payload = spec.payload;
}

-- `event_ids_.next()`
abbrev pub draw_id : {G S : Type 0} → M (Simulation G S) ℕ
draw_id s =
    let (id, event_ids) = EventId.next s.event_ids in (id, record s { event_ids = event_ids })

module _ {G S : Type 0} (env : Env G S) where
  -- The new event enters the pending set, the metadata and the queue. A throw on the way takes it
  -- out of the first two again.
  unfoldable pub enter : Event → M (Simulation G S) (Unit {0})
  enter event s =
      if contains s.pending_ids event.id
      then (err (logic_error "duplicate pending event ID"), s)
      else elim (store_metadata (observed env s) (event_trace_metadata event) s.trace_metadata) [
        | none ↦ (
          err (logic_error "duplicate event trace metadata"),
          record s { trace_metadata = erase_metadata event.id s.trace_metadata },
        )
        | some table ↦ (
          ok tt,
          record s {
            pending_ids = event.id ∷ s.pending_ids;
            trace_metadata = table;
            event_queue = EventQueue.push event s.event_queue;
          },
        )
      ]

  -- The end of `schedule`, for an event that has entered.
  unfoldable pub announce_scheduled : Event → M (Simulation G S) ℕ
  announce_scheduled event = do
    s ← get
    when (observed env s) (record_event scheduled s.now (event_trace_metadata event) none)
    emit_simulation_observation env event_scheduled (some event.id) event.cause
    pure event.id

  unfoldable pub schedule : EventSpec → M (Simulation G S) ℕ
  schedule spec s =
      if is_finished s.lifecycle
      then (err (logic_error "cannot schedule on a finished simulation"), s)
      else if ltb spec.timestamp s.now
      then (err (invalid_argument "cannot schedule an event in the simulated past"), s)
      else (do
        id ← draw_id
        let event = event_of spec id s.current_event
        enter event
        announce_scheduled event)
          s

  -- The metadata of `cancel`, where it is kept.
  abbrev pub metadata_of : ℕ → M (Simulation G S) (Option EventTraceMetadata)
  metadata_of id s =
      if observed env s
      then elim (find_metadata id s.trace_metadata) [
        | none ↦ (err (logic_error "missing event trace metadata"), s)
        | some m ↦ (ok (some m), s)
      ]
      else (ok none, s)

  unfoldable pub record_cancelled : Option EventTraceMetadata → M (Simulation G S) (Unit {0})
  record_cancelled none = pure tt
  record_cancelled (some m) = do s ← get; record_event cancelled s.now m none

  -- The end of `cancel`, for an event that is not cancelled yet.
  unfoldable pub cancel_pending : ℕ → Option EventTraceMetadata → M (Simulation G S) Bool
  unfolding record_cancelled
  cancel_pending id metadata = do
    modify λ s. record s {
      cancelled_ids = id ∷ s.cancelled_ids;
      cancelled_events = (s.cancelled_events + 1) % u64_mod;
    }
    emit_simulation_observation env event_cancelled (some id) (metadata_cause metadata)
    emit_metric env
        (counter (record { metric = simulation_cancelled_events; labels = []; amount = 1 }))
    record_cancelled metadata
    pure true

  unfoldable pub cancel : ℕ → M (Simulation G S) Bool
  cancel id s =
      if is_finished s.lifecycle
      then (ok false, s)
      else if contains s.pending_ids id
      then (do
        metadata ← metadata_of id
        if contains s.cancelled_ids id then pure false else cancel_pending id metadata)
          s
      else (ok false, s)

  unfoldable pub stop_now : StopReason → Event → M (Simulation G S) (Unit {0})
  stop_now reason e = do
    s ← get
    when (trace_enabled s)
        (record_event stop_requested s.now (event_trace_metadata e) (some reason))
    modify λ s. record s { stop_reason = some reason }
    emit_simulation_observation env Records.stop_requested (some e.id) e.cause

  unfoldable pub stop : StopReason → M (Simulation G S) (Unit {0})
  unfolding stop_now
  stop reason s =
      if is_running s.lifecycle
      then elim s.current_event [
        | none ↦ (err (logic_error "simulation can only be stopped during event dispatch"), s)
        | some e ↦ if has_value s.stop_reason then (ok tt, s) else stop_now reason e s
      ]
      else (err (logic_error "simulation can only be stopped while running"), s)

  unfoldable pub current_event_id : Simulation G S → Result ℕ
  current_event_id s = elim s.current_event [
    | none ↦ err (logic_error "no event is currently being dispatched")
    | some e ↦ ok e.id
  ]

  unfoldable pub current_cause : Simulation G S → Result (Option ℕ)
  current_cause s = elim s.current_event [
    | none ↦ err (logic_error "no event is currently being dispatched")
    | some e ↦ ok e.cause
  ]

  unfoldable pub random_u64 : Simulation G S → ℕ × Simulation G S
  random_u64 s = let (value, rng) = next_u64 env.draw s.rng in (value, record s { rng = rng })

  -- `none` is a rejection loop that has not ended within `fuel` draws.
  unfoldable pub random_below : ℕ → ℕ → Simulation G S → Option (Result ℕ × Simulation G S)
  random_below fuel upper s = elim (uniform_below env.draw fuel upper s.rng) [
    | none ↦ none
    | some (value, rng) ↦ some (value, record s { rng = rng })
  ]
