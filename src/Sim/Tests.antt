-- ===== src/Sim/Tests.antt =====
-- The engine of sim/ on concrete inputs: a sink that counts, and an engine that counts its draws.
use nexus_lab.Prelude.{
  ℕ, ◌+◌, ◌≡◌, ◌≢◌, ◌≤◌, ◌<◌, refl, Bool, true, none, some, [], ◌∷◌, arith, u64_max, u64_mod, ◌-◌,
  ◌%◌,
}
use nexus_lab.Prelude.Except.{text, Result, ok, err, custom}
use nexus_lab.Sim.Event.{Event, EventSpec, EventPayload, control, normal}
use nexus_lab.Topology.Entities.{down}
use nexus_lab.Sim.EventId
use nexus_lab.Sim.EventQueue
use nexus_lab.Sim.EventQueue.{size, insert, ids, IsSorted}
use nexus_lab.Sim.EventQueue.Order.{insert_comm}
use nexus_lab.Sim.Rng.{
  rejection_threshold, rejection_threshold_unbiased, uniform_below, nth_draw, next_u64,
  FirstAccepted, uniform_below-FirstAccepted,
}
use nexus_lab.Sim.Trace.{enabled, requested, new_log, append}
use nexus_lab.Sim.Trace.{TraceRecord, scheduled, hash, fnv_offset_basis}
use nexus_lab.Sim.Trace.Encoding.{FitsRecord, encode_records, hash_bytes}
use nexus_lab.Sim.Trace.Hash.{append_all, append_all-hash, Distinguishes, hash-Distinguishes}
use nexus_lab.Sim.Env.{Env, KeepsMode}
use nexus_lab.Sim.Simulation.{
  Simulation, finished, is_created, new, record_event, emit_simulation_observation,
  record_telemetry, event_trace_metadata, emit_metric,
}
use nexus_lab.Sim.Context.{schedule, cancel, enter, announce_scheduled, cancel_pending}
use nexus_lab.Sim.Run.{SimulationResult, Dispatcher, run, next_dispatchable_event}
use nexus_lab.Sim.Invariant.{Inv, new-Inv}
use nexus_lab.Sim.Scheduling.{ScheduleAnswers, schedule_cases, schedule-Inv}
use nexus_lab.Sim.Cancelling.{CancelAnswers, cancel_cases, cancel-Inv, StopAnswers, stop_cases}
use nexus_lab.Sim.Dispatching.{Next, next_dispatchable_event-Next}
use nexus_lab.Sim.Ending.{fail-Finished, Finished}
use nexus_lab.Sim.Run.{fail}
use nexus_lab.Sim.Returning.{queued, run_returns}

record Sink : Type 0 where
  on : Bool
  count : ℕ

abbrev counting : Env ℕ Sink
counting = record {
  seeded = λ seed. seed;
  draw = λ g. (g, g + 1);
  enabled = λ s. s.on;
  record_observation = λ time correlation observation s. (ok tt, record s { count = s.count + 1 });
}

abbrev counting-KeepsMode : KeepsMode counting
counting-KeepsMode time correlation observation s = refl

abbrev fresh : Simulation ℕ Sink
fresh = new counting 7 enabled (record { on = true; count = 0 })

abbrev late_event : EventSpec
late_event = record {
  timestamp = 20;
  priority = normal;
  payload = EventPayload.switch_state_change 3 down;
}

abbrev early_event : EventSpec
early_event = record { timestamp = 10; priority = control; payload = EventPayload.no_op 2 }

abbrev one_pending : Simulation ℕ Sink
one_pending = (schedule counting late_event fresh).1

abbrev two_pending : Simulation ℕ Sink
two_pending = (schedule counting early_event one_pending).1

one_pending-Inv : Inv counting one_pending
one_pending-Inv =
    schedule-Inv counting counting-KeepsMode late_event fresh
      (new-Inv counting 7 enabled (record { on = true; count = 0 }))

two_pending-Inv : Inv counting two_pending
two_pending-Inv = schedule-Inv counting counting-KeepsMode early_event one_pending one_pending-Inv

abbrev verdict : EventPayload → Result (Unit {0})
verdict (EventPayload.switch_state_change network_switch state) =
    err (custom (text "no such switch"))
verdict payload = ok tt

-- A dispatcher that counts its calls, and throws at the state of a switch.
abbrev count_calls : Dispatcher ℕ Sink ℕ
count_calls payload d s = (verdict payload, d + 1, s)

count_calls-queued :
    (payload : EventPayload) (d : ℕ) (s : Simulation ℕ Sink)
    → 0 + queued (count_calls payload d s).2 ≤ 0 + queued s
count_calls-queued payload d s = omega arith

two_pending-created : is_created two_pending.lifecycle ≡ true
unfolding schedule new EventId.next EventId.generator enter new_log announce_scheduled record_event
    emit_simulation_observation record_telemetry append event_trace_metadata
two_pending-created = refl

two_pending-queued : 0 + queued two_pending < 3
unfolding schedule new EventId.next EventId.generator enter new_log announce_scheduled record_event
    emit_simulation_observation record_telemetry append event_trace_metadata size EventQueue.push
    EventQueue.empty_queue insert EventQueue.later_event
two_pending-queued = omega arith

cancel_first : (cancel counting 1 two_pending).0 ≡ ok true
unfolding schedule new cancel EventId.next EventId.generator enter new_log announce_scheduled
    record_event emit_simulation_observation record_telemetry append event_trace_metadata
    cancel_pending emit_metric
cancel_first = refl

run_returns_example :
    (r : SimulationResult) × (d : ℕ) × (t : Simulation ℕ Sink) × (run counting count_calls 3 0
        two_pending
      ≡ some (ok r, d, t))
    × (t.lifecycle ≡ finished)
run_returns_example =
    run_returns counting counting-KeepsMode count_calls (λ d. 0) count_calls-queued 3 0 two_pending
      two_pending-created two_pending-queued

next_dispatchable_event-Next_example :
    Next counting two_pending (next_dispatchable_event two_pending)
next_dispatchable_event-Next_example =
    next_dispatchable_event-Next counting two_pending two_pending-Inv

schedule_cases_example : ScheduleAnswers counting counting-KeepsMode early_event one_pending
schedule_cases_example =
    schedule_cases counting counting-KeepsMode early_event one_pending one_pending-Inv

schedule-Inv_example : Inv counting (schedule counting early_event one_pending).1
schedule-Inv_example =
    schedule-Inv counting counting-KeepsMode early_event one_pending one_pending-Inv

cancel_cases_example : CancelAnswers counting counting-KeepsMode 1 two_pending
cancel_cases_example = cancel_cases counting counting-KeepsMode 1 two_pending two_pending-Inv

cancel-Inv_example : Inv counting (cancel counting 1 two_pending).1
cancel-Inv_example = cancel-Inv counting counting-KeepsMode 1 two_pending two_pending-Inv

stop_cases_example : StopAnswers counting counting-KeepsMode requested two_pending
stop_cases_example = stop_cases counting counting-KeepsMode requested two_pending

fail-Finished_example :
    Finished (fail counting (text "no") two_pending).0 (fail counting (text "no") two_pending).1
fail-Finished_example = fail-Finished counting (text "no") two_pending

abbrev event : ℕ → ℕ → Event
event id timestamp = record {
  timestamp = timestamp;
  priority = normal;
  id = id;
  cause = none;
  payload = EventPayload.no_op 0;
}

insert_comm_example :
    insert (event 3 10) (insert (event 4 10) (event 1 5 ∷ []))
    ≡ insert (event 4 10) (insert (event 3 10) (event 1 5 ∷ []))
insert_comm_example = insert_comm (event 3 10) (event 4 10) (event 1 5 ∷ []) (omega arith)

rejection_threshold_unbiased_example :
    (rejection_threshold 10 < 10) × ((u64_mod - rejection_threshold 10) % 10 ≡ 0)
rejection_threshold_unbiased_example = rejection_threshold_unbiased 10 (omega arith) (omega arith)

accepted_third :
    rejection_threshold 10
    ≤ (nth_draw (λ (g : ℕ). (g, g + 1)) 2 (record { engine = 4; draw_count = 0 })).0
unfolding rejection_threshold nth_draw next_u64
accepted_third = omega arith

uniform_below-FirstAccepted_example :
    FirstAccepted
      (λ (g : ℕ). (g, g + 1))
      8
      10
      (record { engine = 4; draw_count = 0 })
      (uniform_below (λ (g : ℕ). (g, g + 1)) 8 10 (record { engine = 4; draw_count = 0 }))
uniform_below-FirstAccepted_example =
    uniform_below-FirstAccepted (λ (g : ℕ). (g, g + 1)) 2 8 10
      (record { engine = 4; draw_count = 0 }) (omega arith) (omega arith) accepted_third

abbrev entry : ℕ → TraceRecord
entry time = record {
  action = scheduled;
  recorded_at = time;
  event_id = some 3;
  cause = none;
  event_timestamp = some 9;
  priority = some normal;
  payload_kind = none;
  stop_reason = none;
  error = none;
}

entry-FitsRecord : (time : ℕ) → time ≤ u64_max → FitsRecord (entry time)
entry-FitsRecord time word = record {
  recorded_at = word;
  event_id = omega arith;
  cause = tt;
  event_timestamp = omega arith;
  error = tt;
}

append_all-hash_example :
    ((append_all (entry 5 ∷ []) (new_log enabled)).records ≡ entry 5 ∷ [])
    × (hash (append_all (entry 5 ∷ []) (new_log enabled))
        ≡ some (hash_bytes fnv_offset_basis (encode_records (entry 5 ∷ []))))
append_all-hash_example = append_all-hash (entry 5 ∷ [])

hash-Distinguishes_example : Distinguishes (entry 5 ∷ []) (entry 6 ∷ [])
hash-Distinguishes_example =
    hash-Distinguishes (entry 5 ∷ []) (entry 6 ∷ []) (entry-FitsRecord 5 (omega arith), tt)
      (entry-FitsRecord 6 (omega arith), tt) one_later
  where
    one_later : entry 5 ∷ [] ≢ entry 6 ∷ []
    one_later same = ground arith
