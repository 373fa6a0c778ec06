-- ===== src/Sim/Run.antt =====
-- sim/simulation.hpp `run`, and the private operations of simulation.cpp around the dispatch loop.
use nexus_lab.Prelude.{
  ℕ, zero, suc, ◌+◌, ◌%◌, Bool, true, Option, none, some, [], ◌∷◌, if◌then◌else◌, contains, erase,
  u64_mod,
}
use nexus_lab.Prelude.Except.{
  Error, invalid_argument, logic_error, overflow_error, length_error, custom, other, Text, text,
  Result, ok, err,
}
use nexus_lab.Prelude.State.{M, ◌>>=◌, ◌>>◌, pure, get, modify, when}
use nexus_lab.Telemetry.Metrics.{
  simulation_dispatched_events, simulation_final_time_ns, simulation_rng_draws,
  simulation_terminal_total, MetricLabel,
}
use nexus_lab.Telemetry.Records.{
  counter, gauge, SimulationTransition, run_started, event_dispatched, run_succeeded, run_failed,
  run_stopped,
}
use nexus_lab.Sim.Event.{Event, EventPayload, payload_kind}
use nexus_lab.Sim.EventQueue
use nexus_lab.Sim.EventQueue.{EventQueue}
use nexus_lab.Sim.Trace
use nexus_lab.Sim.Trace.{TraceAction, StopReason}
use nexus_lab.Sim.Env.{Env}
use nexus_lab.Sim.Simulation.{
  running, finished, Simulation, erase_metadata, event_trace_metadata, is_created, event_id,
  event_cause, pending_count, record_event, trace_enabled, telemetry_enabled,
  emit_simulation_observation, emit_metric,
}

pub data SimulationStatus : Type 0 where
  completed stopped failed : SimulationStatus

-- The enumerator's value.
abbrev pub status_value : SimulationStatus → ℕ
status_value completed = 0
status_value stopped = 1
status_value failed = 2

pub record SimulationResult : Type 0 where
  pub status : SimulationStatus
  pub stop_reason : Option StopReason
  pub final_time : ℕ
  pub dispatched_events : ℕ
  pub cancelled_events : ℕ
  pub pending_events : ℕ
  pub rng_draw_count : ℕ
  pub trace_hash : Option ℕ
  pub error : Option Text

-- `error.what()`; what is no `std::exception` has no message.
unfoldable pub what : Error → Option Text
what (invalid_argument m) = some (text m)
what (logic_error m) = some (text m)
what (overflow_error m) = some (text m)
what (length_error m) = some (text m)
what (custom m) = some m
what other = none

abbrev pub message_or : Text → Option Text → Text
message_or d none = d
message_or d (some m) = m

abbrev pub terminal_transition : SimulationStatus → SimulationTransition
terminal_transition completed = run_succeeded
terminal_transition stopped = run_stopped
terminal_transition failed = run_failed

-- A record of the trace about the end of the run.
abbrev pub terminal_entry : TraceAction → ℕ → Option Event → Option Text → Trace.TraceRecord
terminal_entry action now none error = record {
  action = action;
  recorded_at = now;
  event_id = none;
  cause = none;
  event_timestamp = none;
  priority = none;
  payload_kind = none;
  stop_reason = none;
  error = error;
}
terminal_entry action now (some e) error = record {
  action = action;
  recorded_at = now;
  event_id = some e.id;
  cause = e.cause;
  event_timestamp = some e.timestamp;
  priority = some e.priority;
  payload_kind = some (payload_kind e.payload);
  stop_reason = none;
  error = error;
}

module _ {G S : Type 0} where
  unfoldable pub begin_run : M (Simulation G S) (Unit {0})
  begin_run s =
      if is_created s.lifecycle
      then (ok tt, record s { lifecycle = running })
      else (err (logic_error "simulation can only be run once"), s)

  unfoldable pub record_terminal : TraceAction → Option Text → M (Simulation G S) (Unit {0})
  record_terminal action error s =
      if trace_enabled s
      then (
        ok tt,
        record s {
          trace = Trace.append (terminal_entry action s.now s.current_event error) s.trace;
        },
      )
      else (ok tt, s)

  -- One round of the loop: an event is taken out of the queue, the pending set and the metadata,
  -- and is skipped if it was cancelled.
  unfoldable pub take_event : Event → EventQueue → Simulation G S → Bool × Simulation G S
  take_event e rest s = (
    contains s.cancelled_ids e.id,
    record s {
      event_queue = rest;
      pending_ids = erase e.id s.pending_ids;
      trace_metadata = erase_metadata e.id s.trace_metadata;
      cancelled_ids = erase e.id s.cancelled_ids;
    },
  )

  -- The loop, for at most `fuel` events.
  unfoldable pub dispatchable_loop : ℕ → Simulation G S → Option Event × Simulation G S
  dispatchable_loop zero s = (none, s)
  dispatchable_loop (suc fuel) s =
      let (head, rest) = EventQueue.pop s.event_queue in
      elim head [
        | none ↦ (none, s)
        | some e ↦
            let next = dispatchable_loop fuel (take_event e rest s).1 in
            if (take_event e rest s).0 then next else (some e, (take_event e rest s).1)
      ]

  unfoldable pub next_dispatchable_event : Simulation G S → Option Event × Simulation G S
  next_dispatchable_event s = dispatchable_loop (EventQueue.size s.event_queue + 1) s

-- What a dispatcher does with a payload, given its own state and the simulation behind the context.
abbrev pub Dispatcher : Type 0 → Type 0 → Type 0 → Type 0
Dispatcher G S D = EventPayload → D → Simulation G S → Result (Unit {0}) × D × Simulation G S

-- `none` is a run that goes on beyond the fuel.
abbrev pub Outcome : Type 0 → Type 0 → Type 0 → Type 0
Outcome G S D = Option (Result SimulationResult × D × Simulation G S)

module _ {G S : Type 0} (env : Env G S) where
  terminal_metrics : SimulationStatus → M (Simulation G S) (Unit {0})
  terminal_metrics status = do
    s ← get
    emit_simulation_observation env (terminal_transition status) (event_id s.current_event)
        (event_cause s.current_event)
    emit_metric env
        (gauge (record { metric = simulation_final_time_ns; labels = []; amount = s.now }))
    emit_metric env
        (counter (record { metric = simulation_rng_draws; labels = []; amount = s.rng.draw_count }))
    emit_metric env (
        counter (record {
          metric = simulation_terminal_total;
          labels = record { label = MetricLabel.outcome; value = status_value status } ∷ [];
          amount = 1;
        }))

  unfoldable pub emit_terminal_telemetry : SimulationStatus → M (Simulation G S) (Unit {0})
  unfolding terminal_metrics
  emit_terminal_telemetry status s =
      if telemetry_enabled env s
      then (if s.telemetry_failed then (ok tt, s) else terminal_metrics status s)
      else (ok tt, s)

  unfoldable pub terminal_record : SimulationStatus → Option Text → M (Simulation G S) (Unit {0})
  terminal_record completed error = record_terminal TraceAction.completed none
  terminal_record failed error = record_terminal TraceAction.failed error
  terminal_record stopped error = pure tt

  unfoldable pub finish : SimulationStatus → Option Text → M (Simulation G S) SimulationResult
  unfolding terminal_record
  finish status error = do
    emit_terminal_telemetry status
    terminal_record status error
    modify λ s. record s { lifecycle = finished; current_event = none }
    s ← get
    pure (record {
      status = status;
      stop_reason = s.stop_reason;
      final_time = s.now;
      dispatched_events = s.dispatched_events;
      cancelled_events = s.cancelled_events;
      pending_events = pending_count s;
      rng_draw_count = s.rng.draw_count;
      trace_hash = Trace.hash s.trace;
      error = error;
    })

  -- The handlers of `fail`: telemetry is off for the second `finish`.
  unfoldable pub recover :
      Result SimulationResult × Simulation G S → Result SimulationResult × Simulation G S
  recover (ok r, s) = (ok r, s)
  recover (err e, s) =
      finish failed (some (message_or (text "unknown telemetry failure") (what e)))
        (record s { telemetry_failed = true })

  unfoldable pub fail : Text → M (Simulation G S) SimulationResult
  unfolding recover
  fail error s = recover (finish failed (some error) s)

  -- One event of the loop, up to the call of the dispatcher.
  unfoldable pub announce : Event → M (Simulation G S) (Unit {0})
  announce e = do
    modify λ s. record s {
      current_event = some e;
      now = e.timestamp;
      dispatched_events = (s.dispatched_events + 1) % u64_mod;
    }
    emit_simulation_observation env event_dispatched (some e.id) e.cause
    emit_metric env
        (counter (record { metric = simulation_dispatched_events; labels = []; amount = 1 }))
    s ← get
    when (trace_enabled s) (record_event TraceAction.dispatched s.now (event_trace_metadata e) none)

module _ {G S D : Type 0} (env : Env G S) (dispatcher : Dispatcher G S D) where
  -- After the dispatcher: `current_event_.reset()`, unless it threw.
  unfoldable pub returned :
      Result (Unit {0}) × D × Simulation G S → Result (Unit {0}) × D × Simulation G S
  returned (ok u, d, s) = (ok u, d, record s { current_event = none })
  returned (err e, d, s) = (err e, d, s)

  unfoldable pub announced :
      Event → D → Result (Unit {0}) × Simulation G S → Result (Unit {0}) × D × Simulation G S
  unfolding returned
  announced e d (ok u, s) = returned (dispatcher e.payload d s)
  announced e d (err x, s) = (err x, d, s)

  unfoldable pub dispatch : Event → D → Simulation G S → Result (Unit {0}) × D × Simulation G S
  unfolding announced
  dispatch e d s = announced e d (announce env e s)

  abbrev pub with_state :
      D → Result SimulationResult × Simulation G S → Result SimulationResult × D × Simulation G S
  with_state d (r, s) = (r, d, s)

  -- The `while` loop of `run`, for at most `fuel` rounds, and the `return` behind it.
  unfoldable pub run_loop : ℕ → D → Simulation G S → Outcome G S D
  run_loop zero d s = none
  run_loop (suc fuel) d s = elim s.stop_reason [
    | some reason ↦ some (with_state d (finish env stopped none s))
    | none ↦
        let (head, s') = next_dispatchable_event s in
        elim head [
          | none ↦ some (with_state d (finish env completed none s'))
          | some e ↦
              let (answer, d', s'') = dispatch e d s' in
              elim answer [ ok u ↦ run_loop fuel d' s'' | err x ↦ some (err x, d', s'') ]
        ]
  ]

  -- The `catch` clauses of `run`.
  unfoldable pub catch_all : Outcome G S D → Outcome G S D
  catch_all none = none
  catch_all (some (ok r, d, s)) = some (ok r, d, s)
  catch_all (some (err e, d, s)) =
      some (
        with_state d (fail env (message_or (text "unknown simulation handler failure") (what e)) s))

  unfoldable pub started : ℕ → D → Result (Unit {0}) × Simulation G S → Outcome G S D
  started fuel d (ok u, s) = run_loop fuel d s
  started fuel d (err e, s) = some (err e, d, s)

  unfoldable pub begun : ℕ → D → Result (Unit {0}) × Simulation G S → Outcome G S D
  unfolding started catch_all
  begun fuel d (err e, s) = some (err e, d, s)
  begun fuel d (ok u, s) =
      catch_all (started fuel d (emit_simulation_observation env run_started none none s))

  unfoldable pub run : ℕ → D → Simulation G S → Outcome G S D
  unfolding begun
  run fuel d s = begun fuel d (begin_run s)
