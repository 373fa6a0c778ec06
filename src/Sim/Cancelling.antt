-- ===== src/Sim/Cancelling.antt =====
-- `cancel` and `stop` of sim/simulation.cpp on every branch.
use nexus_lab.Prelude.{
  ℕ, ◌+◌, ◌%◌, ◌≡◌, refl, ap, ◌≢◌, ◌⊎◌, inl, inr, true, false, Option, none, some, [], ◌∷◌, arith,
  Bool-cases, Option-cases, ==_refl, contains, u64_mod, has_value,
}
use nexus_lab.Prelude.Except.{ok}
use nexus_lab.Prelude.State.{pure}
use nexus_lab.Telemetry.Metrics.{simulation_cancelled_events}
use nexus_lab.Telemetry.Records.{TelemetryObservation, event_cancelled, counter}
use nexus_lab.Telemetry.Records
use nexus_lab.Sim.Event.{Event}
use nexus_lab.Sim.Trace.{TraceAction, StopReason}
use nexus_lab.Sim.Env.{Env, KeepsMode}
use nexus_lab.Sim.Simulation.{
  Simulation, EventTraceMetadata, find_metadata, is_finished, is_running, observed,
  telemetry_enabled, trace_enabled, event_trace_metadata, metadata_cause, record_event,
  emit_simulation_observation, emit_metric,
}
use nexus_lab.Sim.Context.{metadata_of, record_cancelled, cancel_pending, cancel, stop_now, stop}
use nexus_lab.Sim.Quiet.{
  Quiet, Quiet-refl, Quiet-trans, and_then-Quiet, emit_simulation_observation-Quiet,
  emit_metric-Quiet, emit_simulation_observation_off, emit_metric_off, record_event-Quiet,
}
use nexus_lab.Sim.Invariant.{Inv, Quiet-Inv}

-- The state in which the pending event `id` is marked as cancelled.
abbrev pub marked : {G S : Type 0} → ℕ → Simulation G S → Simulation G S
marked id s = record s {
  cancelled_ids = id ∷ s.cancelled_ids;
  cancelled_events = (s.cancelled_events + 1) % u64_mod;
}

abbrev cancellation : TelemetryObservation
cancellation = counter (record { metric = simulation_cancelled_events; labels = []; amount = 1 })

module _ {G S : Type 0} (env : Env G S) (keeps : KeepsMode env) where
  record_cancelled-Quiet :
      (m : Option EventTraceMetadata) (s : Simulation G S)
      → Quiet env s (record_cancelled env m s).1
  unfolding record_cancelled
  record_cancelled-Quiet none s = Quiet-refl env s
  record_cancelled-Quiet (some m) s =
      record_event-Quiet env keeps TraceAction.cancelled s.now m none s

  -- The reports of `cancel`.
  cancel_pending-Quiet :
      (id : ℕ) (m : Option EventTraceMetadata) (s : Simulation G S)
      → Quiet env (marked id s) (cancel_pending env id m s).1
  unfolding cancel_pending
  cancel_pending-Quiet id m s =
      and_then-Quiet env keeps
        (emit_simulation_observation env event_cancelled (some id) (metadata_cause m) (marked id s))
        _
        (emit_simulation_observation-Quiet env keeps event_cancelled (some id) (metadata_cause m)
          (marked id s))
        (λ _ t.
          and_then-Quiet env keeps (emit_metric env _ t) _ (emit_metric-Quiet env keeps _ t) (λ _ u.
            and_then-Quiet env keeps (record_cancelled env m u) (λ _. pure true)
              (record_cancelled-Quiet m u) (λ _ w. Quiet-refl env w)))

  marked-Inv :
      (id : ℕ) (s : Simulation G S)
      → Inv env s
      → contains s.pending_ids id ≡ true
      → contains s.cancelled_ids id ≡ false
      → Inv env (marked id s)
  marked-Inv id s v p c = record {
    word = v.word;
    sorted = v.sorted;
    unique = v.unique;
    pending_unique = v.pending_unique;
    pending = v.pending;
    cancelled_unique = (c, v.cancelled_unique);
    cancelled = λ a h. ground (arith, v.cancelled a);
    fresh = v.fresh;
    future = v.future;
    covered = v.covered;
  }

  -- Under the invariant the metadata of a pending event is there.
  metadata-found :
      (id : ℕ) (s : Simulation G S)
      → Inv env s
      → contains s.pending_ids id ≡ true
      → (m : Option EventTraceMetadata) × (metadata_of env id s ≡ (ok m, s))
  metadata-found id s v p = elim (Bool-cases (observed env s)) [
    | inr w ↦ (none, rw w)
    | inl w ↦ elim (Option-cases (find_metadata id s.trace_metadata)) [
      | inl e ↦ absurd (missing e (v.covered w id))
      | inr (m, e) ↦ (some m, rw (w, e))
    ]
  ]
    where
      missing :
          find_metadata id s.trace_metadata ≡ none
          → has_value (find_metadata id s.trace_metadata) ≡ contains s.pending_ids id
          → ⊥
      missing e c = let h : has_value (find_metadata id s.trace_metadata) ≡ false = rw e in cc

  cancel_marks :
      (id : ℕ) (s : Simulation G S)
      → Inv env s
      → is_finished s.lifecycle ≡ false
      → contains s.pending_ids id ≡ true
      → contains s.cancelled_ids id ≡ false
      → (m : Option EventTraceMetadata) × (cancel env id s ≡ cancel_pending env id m s)
  unfolding cancel
  cancel_marks id s v f p c = let (m, e) = metadata-found id s v p in (m, rw (f, p, e, c))

  cancel_pending-ok :
      (id : ℕ) (m : Option EventTraceMetadata) (s : Simulation G S)
      → ((cancel_pending env id m s).0 ≡ ok true) ⊎ (telemetry_enabled env s ≡ true)
  unfolding cancel_pending record_cancelled record_event
  cancel_pending-ok id m s = elim (Bool-cases (telemetry_enabled env s)) [
    | inl on ↦ inr on
    | inr off ↦ inl (unreported m off)
  ]
    where
      unreported :
          (m : Option EventTraceMetadata)
          → telemetry_enabled env s ≡ false
          → (cancel_pending env id m s).0 ≡ ok true
      unreported none off = rw (
        emit_simulation_observation_off env event_cancelled (some id) none (marked id s) off,
        emit_metric_off env cancellation (marked id s) off,
      )
      unreported (some m) off = rw (
        emit_simulation_observation_off env event_cancelled (some id) m.cause (marked id s) off,
        emit_metric_off env cancellation (marked id s) off,
      )

  -- How `cancel` answers, by cases.
  abbrev pub CancelAnswers : ℕ → Simulation G S → Type 0
  CancelAnswers id s =
      (((is_finished s.lifecycle ≡ true)
          ⊎ (contains s.pending_ids id ≡ false)
          ⊎ (contains s.cancelled_ids id ≡ true))
        × (cancel env id s ≡ (ok false, s)))
      ⊎ ((is_finished s.lifecycle ≡ false)
          × (contains s.pending_ids id ≡ true)
          × (contains s.cancelled_ids id ≡ false)
          × Quiet env (marked id s) (cancel env id s).1
          × (((cancel env id s).0 ≡ ok true) ⊎ (telemetry_enabled env s ≡ true)))

  -- Under the invariant, and with a sink that keeps its mode: `cancel` answers `false` and changes nothing in a finished simulation, for an event that is not
  -- pending, and for one that is cancelled already. Otherwise it marks the event, once, and changes
  -- nothing else but the trace and the telemetry; the answer is `true` unless telemetry is on, which
  -- may throw.
  pub cancel_cases : (id : ℕ) (s : Simulation G S) → Inv env s → CancelAnswers id s
  cancel_cases id s v = elim (Bool-cases (is_finished s.lifecycle)) [
    | inl f ↦ inl (inl f, unfold cancel in rw f)
    | inr f ↦ elim (Bool-cases (contains s.pending_ids id)) [
      | inr p ↦ inl (inr (inl p), unfold cancel in rw (f, p))
      | inl p ↦ elim (Bool-cases (contains s.cancelled_ids id)) [
        | inl c ↦
            let (m, e) = metadata-found id s v p in
            inl (inr (inr c), unfold cancel in rw (f, p, e, c))
        | inr c ↦
            let (m, e) = cancel_marks id s v f p c in
            inr (f, p, c, rw e (cancel_pending-Quiet id m s), rw e (cancel_pending-ok id m s))
      ]
    ]
  ]

  -- With a sink that keeps its mode, `cancel` keeps the invariant on every branch.
  pub cancel-Inv : (id : ℕ) (s : Simulation G S) → Inv env s → Inv env (cancel env id s).1
  cancel-Inv id s v = elim (cancel_cases id s v) [
    | inl (_, e) ↦ rw e v
    | inr (f, p, c, quiet, _) ↦ Quiet-Inv env quiet (marked-Inv id s v p c)
  ]

  -- Under the invariant, and with a sink that keeps its mode: a second `cancel` of an event that one
  -- has cancelled answers `false` and changes nothing.
  cancel_twice :
      (id : ℕ) (s : Simulation G S)
      → Inv env s
      → (cancel env id s).0 ≡ ok true
      → cancel env id (cancel env id s).1 ≡ (ok false, (cancel env id s).1)
  cancel_twice id s v h = elim (cancel_cases id s v) [
    | inl (_, e) ↦ absurd (refused e)
    | inr (f, p, c, quiet, _) ↦ elim (cancel_cases id (cancel env id s).1 (cancel-Inv id s v)) [
      | inl (_, e) ↦ e
      | inr (_, _, c', _, _) ↦ let m = marks quiet in cc
    ]
  ]
    where
      refused : cancel env id s ≡ (ok false, s) → ⊥
      refused e = let r : (cancel env id s).0 ≡ ok false = ap (λ x. x.0) e in cc

      marks :
          Quiet env (marked id s) (cancel env id s).1
          → contains (cancel env id s).1.cancelled_ids id ≡ true
      marks quiet = rw (quiet.same) (ground (arith, ==_refl id))

  stop_now-Quiet :
      (reason : StopReason) (e : Event) (s : Simulation G S)
      → Quiet env (record s { stop_reason = some reason }) (stop_now env reason e s).1
  unfolding stop_now record_event
  stop_now-Quiet reason e s =
      let entered =
        record_event-Quiet env keeps TraceAction.stop_requested s.now (event_trace_metadata e)
          (some reason) (record s { stop_reason = some reason }) in
      elim (Bool-cases (trace_enabled s)) [
        | inl on ↦ rw on (
            Quiet-trans env entered (
              emit_simulation_observation-Quiet env keeps Records.stop_requested (some e.id) e.cause
                _))
        | inr off ↦ rw off (
            emit_simulation_observation-Quiet env keeps Records.stop_requested (some e.id) e.cause
              (record s { stop_reason = some reason }))
      ]

  -- How `stop` answers, by cases.
  abbrev pub StopAnswers : StopReason → Simulation G S → Type 0
  StopAnswers reason s =
      (((is_running s.lifecycle ≡ false) ⊎ (s.current_event ≡ none))
        × ((stop env reason s).1 ≡ s)
        × ((stop env reason s).0 ≢ ok tt))
      ⊎ ((is_running s.lifecycle ≡ true)
          × (s.current_event ≢ none)
          × (has_value s.stop_reason ≡ true)
          × (stop env reason s ≡ (ok tt, s)))
      ⊎ ((is_running s.lifecycle ≡ true)
          × (s.current_event ≢ none)
          × (s.stop_reason ≡ none)
          × Quiet env (record s { stop_reason = some reason }) (stop env reason s).1)

  -- With a sink that keeps its mode: `stop` answers an error and changes nothing unless the simulation runs and an event is in
  -- dispatch. The first reason stays: it changes nothing if one is set. Otherwise it sets the
  -- reason, and changes nothing else but the trace and the telemetry.
  pub stop_cases : (reason : StopReason) (s : Simulation G S) → StopAnswers reason s
  unfolding stop
  stop_cases reason s = elim (Bool-cases (is_running s.lifecycle)) [
    | inr r ↦ inl (inl r, simp r refl, simp r (λ e. cc))
    | inl r ↦ elim (Option-cases s.current_event) [
      | inl n ↦ inl (inr n, simp (r, n) refl, simp (r, n) (λ e. cc))
      | inr (e, c) ↦ elim (Option-cases s.stop_reason) [
        | inl n ↦
            let now : stop env reason s ≡ stop_now env reason e s = simp (r, c, n) in
            inr (inr (r, dispatches e c, n, rw now (stop_now-Quiet reason e s)))
        | inr (k, n) ↦ inr (inl (r, dispatches e c, simp n refl, simp (r, c, n)))
      ]
    ]
  ]
    where
      dispatches : (e : Event) → s.current_event ≡ some e → s.current_event ≢ none
      dispatches e c = λ n. cc
