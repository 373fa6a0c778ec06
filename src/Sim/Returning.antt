-- ===== src/Sim/Returning.antt =====
-- That the dispatch loop of `run` in sim/simulation.hpp ends.
use nexus_lab.Prelude.{
  ℕ, zero, suc, ◌+◌, ◌≤◌, ◌<◌, ◌≡◌, refl, ap, ◌⊎◌, inl, inr, true, Option, none, some, List, [],
  ◌∷◌, arith, Bool-cases, Option-cases, contains, length, u64_mod, ◌%◌,
}
use nexus_lab.Prelude.Except.{Result, ok, err, Result-cases}
use nexus_lab.Telemetry.Records.{event_dispatched, run_started}
use nexus_lab.Sim.Event.{Event, EventPayload}
use nexus_lab.Sim.EventQueue.{size, pop, pop_list}
use nexus_lab.Sim.Trace.{TraceAction}
use nexus_lab.Sim.Env.{Env, KeepsMode}
use nexus_lab.Sim.Simulation.{
  Simulation, running, finished, is_created, event_trace_metadata, record_event, trace_enabled,
  emit_simulation_observation, emit_metric,
}
use nexus_lab.Sim.Run.{
  SimulationResult, take_event, dispatchable_loop, next_dispatchable_event, announce, Dispatcher,
  Outcome, announced, returned, dispatch, run_loop, catch_all, started, begin_run, begun, run,
}
use nexus_lab.Sim.Quiet.{
  Quiet, and_then-Quiet, when-Quiet, emit_simulation_observation-Quiet, emit_metric-Quiet,
  record_event-Quiet,
}
use nexus_lab.Sim.Ending.{FinishedRun, run-FinishedRun}

pop_list-size :
    (es : List Event)
    → ((pop_list es).0 ≡ none × (length (pop_list es).1.events ≡ 0))
      ⊎ ((e : Event) × ((pop_list es).0 ≡ some e)
          × (length es ≡ suc (length (pop_list es).1.events)))
unfolding pop_list
pop_list-size [] = inl (refl, refl)
pop_list-size (e ∷ es) = inr (e, refl, refl)

module _ {G S : Type 0} where
  -- The events that the queue of `s` holds.
  abbrev pub queued : Simulation G S → ℕ
  queued s = size s.event_queue

  -- A round that has found an event has taken it out.
  abbrev Shrinks : Simulation G S → Option Event × Simulation G S → Type 0
  Shrinks s (none, t) = Unit {0}
  Shrinks s (some e, t) = queued t < queued s

  Shrinks-after :
      (s t : Simulation G S) (answer : Option Event × Simulation G S)
      → queued t < queued s
      → Shrinks t answer
      → Shrinks s answer
  Shrinks-after s t (none, u) l h = tt
  Shrinks-after s t (some e, u) l h = omega arith

  dispatchable_loop-Shrinks : (fuel : ℕ) (s : Simulation G S) → Shrinks s (dispatchable_loop fuel s)
  unfolding dispatchable_loop pop size take_event
  dispatchable_loop-Shrinks zero s = tt
  dispatchable_loop-Shrinks (suc fuel) s = elim (pop_list-size s.event_queue.events) [
    | inl (p, _) ↦ rw (p, dispatchable_loop) tt
    | inr (e, p, l) ↦
        let t = (take_event e (pop_list s.event_queue.events).1 s).1 in
        elim (Bool-cases (contains s.cancelled_ids e.id)) [
          | inl c ↦
              rw (p, dispatchable_loop, c)
                (Shrinks-after s t (dispatchable_loop fuel t) (omega (arith, l))
                  (dispatchable_loop-Shrinks fuel t))
          | inr c ↦ rw (p, dispatchable_loop, c) (omega (arith, l))
        ]
  ]

  next-Shrinks : (s : Simulation G S) → Shrinks s (next_dispatchable_event s)
  unfolding next_dispatchable_event
  next-Shrinks s = dispatchable_loop-Shrinks (size s.event_queue + 1) s

  some-Shrinks :
      {e : Event} (s : Simulation G S) (answer : Option Event × Simulation G S)
      → Shrinks s answer
      → answer.0 ≡ some e
      → queued answer.1 < queued s
  some-Shrinks s (none, t) h p = let no_event : ⊥ = cc in absurd no_event
  some-Shrinks s (some e, t) h p = h

module _ {G S : Type 0} (env : Env G S) (keeps : KeepsMode env) where
  -- An event before its dispatch.
  abbrev current : Event → Simulation G S → Simulation G S
  current e s = record s {
    current_event = some e;
    now = e.timestamp;
    dispatched_events = (s.dispatched_events + 1) % u64_mod;
  }

  announce-Quiet : (e : Event) (s : Simulation G S) → Quiet env (current e s) (announce env e s).1
  unfolding announce
  announce-Quiet e s =
      and_then-Quiet env keeps
        (emit_simulation_observation env event_dispatched (some e.id) e.cause (current e s)) _
        (emit_simulation_observation-Quiet env keeps event_dispatched (some e.id) e.cause _)
        (λ _ t.
          and_then-Quiet env keeps (emit_metric env _ t) _ (emit_metric-Quiet env keeps _ t) (λ _ u.
            when-Quiet env keeps (trace_enabled u)
              (record_event TraceAction.dispatched u.now (event_trace_metadata e) none) u
              (record_event-Quiet env keeps TraceAction.dispatched u.now (event_trace_metadata e)
                none u)))

module _ {G S D : Type 0} (env : Env G S) (keeps : KeepsMode env) (dispatcher : Dispatcher G S D)
    (measure : D → ℕ)
    (settles : (p : EventPayload) (d : D) (s : Simulation G S)
      → measure (dispatcher p d s).1 + queued (dispatcher p d s).2 ≤ measure d + queued s) where
  announced-settles :
      (e : Event) (d : D) (answer : Result (Unit {0}) × Simulation G S)
      → measure (announced env dispatcher e d answer).1
          + queued (announced env dispatcher e d answer).2
        ≤ measure d + queued answer.1
  unfolding announced returned
  announced-settles e d (ok u, s) = elim (Result-cases (dispatcher e.payload d s).0) [
    | inl (u, fine) ↦ rw (fine, announced, returned) (settles e.payload d s)
    | inr (x, thrown) ↦ rw (thrown, announced, returned) (settles e.payload d s)
  ]
  announced-settles e d (err x, s) = omega arith

  dispatch-settles :
      (e : Event) (d : D) (s : Simulation G S)
      → measure (dispatch env dispatcher e d s).1 + queued (dispatch env dispatcher e d s).2
        ≤ measure d + queued s
  unfolding dispatch
  dispatch-settles e d s =
      let same : queued (announce env e s).1 ≡ queued s =
        ap queued (announce-Quiet env keeps e s).same in
      omega (arith, announced-settles e d (announce env e s))

  run_loop-returns :
      (fuel : ℕ) (d : D) (s : Simulation G S)
      → measure d + queued s < fuel
      → (answer : Result SimulationResult × D × Simulation G S) × (run_loop env dispatcher fuel d s
          ≡ some answer)
  unfolding run_loop
  run_loop-returns zero d s f = absurd (omega arith)
  run_loop-returns (suc fuel) d s f = elim (Option-cases s.stop_reason) [
    | inr (reason, stop) ↦ rw (stop, run_loop) (_, refl)
    | inl go ↦ elim (Option-cases (next_dispatchable_event s).0) [
      | inl last ↦ rw (go, run_loop, last) (_, refl)
      | inr (e, next) ↦
          let t = (next_dispatchable_event s).1 in
          let outcome = dispatch env dispatcher e d t in
          let less = some-Shrinks s (next_dispatchable_event s) (next-Shrinks s) next in
          elim (Result-cases outcome.0) [
            | inl (u, fine) ↦
                rw (go, run_loop, next, fine)
                  (run_loop-returns fuel outcome.1 outcome.2
                    (omega (arith, dispatch-settles e d t, less)))
            | inr (x, thrown) ↦ rw (go, run_loop, next, thrown) (_, refl)
          ]
    ]
  ]

  catch_all-returns :
      (o : Outcome G S D)
      → (answer : Result SimulationResult × D × Simulation G S) × (o ≡ some answer)
      → (answer : Result SimulationResult × D × Simulation G S) × (catch_all env dispatcher o
          ≡ some answer)
  unfolding catch_all
  catch_all-returns none (answer, e) = let no_answer : ⊥ = cc in absurd no_answer
  catch_all-returns (some (ok r, d, s)) h = (_, refl)
  catch_all-returns (some (err x, d, s)) h = (_, refl)

  started-returns :
      (fuel : ℕ) (d : D) (answer : Result (Unit {0}) × Simulation G S)
      → measure d + queued answer.1 < fuel
      → (a : Result SimulationResult × D × Simulation G S) × (started env dispatcher fuel d answer
          ≡ some a)
  unfolding started
  started-returns fuel d (ok u, s) f = run_loop-returns fuel d s f
  started-returns fuel d (err x, s) f = (_, refl)

  FinishedRun-result :
      (o : Outcome G S D)
      → FinishedRun env dispatcher o
      → (a : Result SimulationResult × D × Simulation G S) × (o ≡ some a)
      → (r : SimulationResult) × (d : D) × (t : Simulation G S) × (o ≡ some (ok r, d, t))
        × (t.lifecycle ≡ finished)
  FinishedRun-result none h (a, e) = let no_answer : ⊥ = cc in absurd no_answer
  FinishedRun-result (some (answer, d, t)) (r, e, l) _ = (r, d, t, rw e refl, l)

  run-ends :
      (fuel : ℕ) (d : D) (s : Simulation G S)
      → is_created s.lifecycle ≡ true
      → measure d + queued s < fuel
      → (a : Result SimulationResult × D × Simulation G S) × (run env dispatcher fuel d s ≡ some a)
  unfolding run begun begin_run
  run-ends fuel d s c f =
      let go : Simulation G S = record s { lifecycle = running } in
      let same : queued (emit_simulation_observation env run_started none none go).1 ≡ queued s =
        ap queued (emit_simulation_observation-Quiet env keeps run_started none none go).same in
      rw c (
        catch_all-returns _ (
          started-returns fuel d (emit_simulation_observation env run_started none none go)
            (omega (arith, same))))

  -- With a sink that keeps its mode, a new simulation runs to its end: if a measure of the dispatcher's state bounds what it may still
  -- schedule, so that no call of it makes the measure and the queue together larger, then a fuel
  -- above both gives a result, whatever is thrown on the way, and the simulation is finished.
  pub run_returns :
      (fuel : ℕ) (d : D) (s : Simulation G S)
      → is_created s.lifecycle ≡ true
      → measure d + queued s < fuel
      → (r : SimulationResult) × (d' : D) × (t : Simulation G S) × (run env dispatcher fuel d s
          ≡ some (ok r, d', t))
        × (t.lifecycle ≡ finished)
  run_returns fuel d s c f =
      FinishedRun-result (run env dispatcher fuel d s) (run-FinishedRun env dispatcher fuel d s c)
        (run-ends fuel d s c f)
