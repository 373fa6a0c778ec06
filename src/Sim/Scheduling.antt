-- ===== src/Sim/Scheduling.antt =====
-- `schedule` of sim/simulation.cpp on every branch.
use nexus_lab.Prelude.{
  ◌+◌, ◌≤◌, ◌<◌, ◌≡◌, refl, ◌⊎◌, inl, inr, true, false, none, some, arith, Bool-cases, ltb,
  contains,
}
use native.Mathlib.Decide.{dec_le}
use nexus_lab.Prelude.Except.{ok, err, logic_error, invalid_argument, overflow_error}
use nexus_lab.Prelude.State.{◌>>◌, pure, when}
use nexus_lab.Sim.Event.{Event, EventSpec}
use nexus_lab.Telemetry.Records.{event_scheduled}
use nexus_lab.Sim.EventId
use nexus_lab.Sim.EventId.{EventIdGenerator, bound, IsWord, next-bound, next-exhausted}
use nexus_lab.Sim.Trace.{scheduled}
use nexus_lab.Sim.Env.{Env, KeepsMode}
use nexus_lab.Sim.Simulation.{
  Simulation, is_finished, observed, telemetry_enabled, event_trace_metadata, record_event,
  emit_simulation_observation,
}
use nexus_lab.Sim.Context.{event_of, announce_scheduled, schedule}
use nexus_lab.Sim.Quiet.{
  Quiet, Quiet-refl, and_then-Quiet, when-Quiet, emit_simulation_observation-Quiet,
  record_event-Quiet,
}
use nexus_lab.Sim.Invariant.{Inv, Quiet-Inv, entered, enter-ok, entered-Inv}

schedule_refused :
    {G S : Type 0} (env : Env G S) (spec : EventSpec) (s : Simulation G S)
    → (is_finished s.lifecycle ≡ true
        → schedule env spec s ≡ (err (logic_error "cannot schedule on a finished simulation"), s))
      × (is_finished s.lifecycle ≡ false
          → spec.timestamp < s.now
          → schedule env spec s
            ≡ (err (invalid_argument "cannot schedule an event in the simulated past"), s))
      × (is_finished s.lifecycle ≡ false
          → s.now ≤ spec.timestamp
          → s.event_ids.exhausted ≡ true
          → schedule env spec s ≡ (err (overflow_error "event ID sequence exhausted"), s))
unfolding schedule
schedule_refused env spec s =
    (λ f. rw f, λ f p. ground arith, λ f p x. ground (arith, next-exhausted s.event_ids x))

module _ {G S : Type 0} (env : Env G S) (keeps : KeepsMode env) where
  announce_scheduled-Quiet :
      (e : Event) (s : Simulation G S) → Quiet env s (announce_scheduled env e s).1
  unfolding announce_scheduled
  announce_scheduled-Quiet e s =
      and_then-Quiet env keeps
        (when (observed env s) (record_event scheduled s.now (event_trace_metadata e) none) s)
        (λ _. emit_simulation_observation env event_scheduled (some e.id) e.cause >> pure e.id)
        (when-Quiet env keeps (observed env s)
          (record_event scheduled s.now (event_trace_metadata e) none) s
          (record_event-Quiet env keeps scheduled s.now (event_trace_metadata e) none s))
        (λ _ t.
          and_then-Quiet env keeps
            (emit_simulation_observation env event_scheduled (some e.id) e.cause t) (λ _. pure e.id)
            (emit_simulation_observation-Quiet env keeps event_scheduled (some e.id) e.cause t)
            (λ _ u. Quiet-refl env u))

  announce_scheduled-ok :
      (e : Event) (s : Simulation G S)
      → ((announce_scheduled env e s).0 ≡ ok e.id) ⊎ (telemetry_enabled env s ≡ true)
  unfolding announce_scheduled emit_simulation_observation record_event
  announce_scheduled-ok e s = elim (Bool-cases (telemetry_enabled env s)) [
    | inl on ↦ inr on
    | inr off ↦ elim (Bool-cases (observed env s)) [
      | inl w ↦ rw (w, off) (inl refl)
      | inr w ↦ rw (w, off) (inl refl)
    ]
  ]

  -- The state before the new event enters: its ID is drawn.
  abbrev pub drawn : Simulation G S → Simulation G S
  drawn s = record s { event_ids = (EventId.next s.event_ids).1 }

  -- The event that a call of `schedule` makes: its ID is the next one.
  abbrev pub fresh_event : EventSpec → Simulation G S → Event
  fresh_event spec s = event_of spec (bound s.event_ids) s.current_event

  drawn-Inv :
      (s : Simulation G S)
      → Inv env s
      → s.event_ids.exhausted ≡ false
      → Inv env (drawn s)
        × (bound (drawn s).event_ids ≡ bound s.event_ids + 1)
        × (contains s.pending_ids (bound s.event_ids) ≡ false)
  drawn-Inv s v x =
      let (_, _, up, w) = next-bound s.event_ids v.word x in
      (
        record {
          word = w;
          sorted = v.sorted;
          unique = v.unique;
          pending_unique = v.pending_unique;
          pending = v.pending;
          cancelled_unique = v.cancelled_unique;
          cancelled = v.cancelled;
          fresh = λ a h. omega (arith, up, v.fresh a h);
          future = v.future;
          covered = v.covered;
        },
        up,
        absent,
      )
    where
      absent : contains s.pending_ids (bound s.event_ids) ≡ false
      absent = elim (Bool-cases (contains s.pending_ids (bound s.event_ids))) [
        | inl h ↦ absurd (omega (arith, v.fresh (bound s.event_ids) h))
        | inr h ↦ h
      ]

  -- The facts under which `schedule` accepts a specification.
  pub record Accepts (spec : EventSpec) (s : Simulation G S) : Type 0 where
    pub open_ : is_finished s.lifecycle ≡ false
    pub later : s.now ≤ spec.timestamp
    pub left : s.event_ids.exhausted ≡ false

  schedule_enters :
      (spec : EventSpec) (s : Simulation G S)
      → Inv env s
      → Accepts spec s
      → schedule env spec s
        ≡ announce_scheduled env (fresh_event spec s) (entered env (fresh_event spec s) (drawn s))
  unfolding schedule
  schedule_enters spec s v a =
      let (w, _, absent) = drawn-Inv s v a.left in
      let on_time : ltb spec.timestamp s.now ≡ false = let l = a.later in ground arith in
      rw (
        a.open_,
        on_time,
        (next-bound s.event_ids v.word a.left).0,
        enter-ok env (fresh_event spec s) (drawn s) w absent,
      )

  schedule_accepted :
      (spec : EventSpec) (s : Simulation G S)
      → Inv env s
      → Accepts spec s
      → Quiet env (entered env (fresh_event spec s) (drawn s)) (schedule env spec s).1
        × Inv env (schedule env spec s).1
        × (((schedule env spec s).0 ≡ ok (bound s.event_ids)) ⊎ (telemetry_enabled env s ≡ true))
  schedule_accepted spec s v a =
      let (w, up, absent) = drawn-Inv s v a.left in
      let quiet =
        announce_scheduled-Quiet (fresh_event spec s)
          (entered env (fresh_event spec s) (drawn s)) in
      rw (schedule_enters spec s v a) (
        quiet,
        Quiet-Inv env quiet
            (entered-Inv env (fresh_event spec s) (drawn s) w absent (omega (arith, up)) a.later),
        announce_scheduled-ok (fresh_event spec s) (entered env (fresh_event spec s) (drawn s)),
      )

  -- Whatever is asked of `schedule`, and whatever it answers, the invariant is kept, with a sink that
  -- keeps its mode.
  pub schedule-Inv :
      (spec : EventSpec) (s : Simulation G S) → Inv env s → Inv env (schedule env spec s).1
  schedule-Inv spec s v =
      let (done, past, spent) = schedule_refused env spec s in
      elim (Bool-cases (is_finished s.lifecycle)) [
        | inl f ↦ rw (done f) v
        | inr f ↦ elim (dec_le s.now spec.timestamp) [
          | no early ↦ rw (past f (omega arith)) v
          | yes late ↦ elim (Bool-cases s.event_ids.exhausted) [
            | inl x ↦ rw (spent f late x) v
            | inr x ↦ (schedule_accepted spec s v (record { open_ = f; later = late; left = x })).1
          ]
        ]
      ]

  -- How `schedule` answers, by cases.
  abbrev pub ScheduleAnswers : EventSpec → Simulation G S → Type 0
  ScheduleAnswers spec s =
      ((is_finished s.lifecycle ≡ true)
        × (schedule env spec s ≡ (err (logic_error "cannot schedule on a finished simulation"), s)))
      ⊎ ((spec.timestamp < s.now)
          × (schedule env spec s
              ≡ (err (invalid_argument "cannot schedule an event in the simulated past"), s)))
      ⊎ ((s.event_ids.exhausted ≡ true)
          × (schedule env spec s ≡ (err (overflow_error "event ID sequence exhausted"), s)))
      ⊎ (Accepts spec s
          × Quiet env (entered env (fresh_event spec s) (drawn s)) (schedule env spec s).1
          × (((schedule env spec s).0 ≡ ok (bound s.event_ids)) ⊎ (telemetry_enabled env s ≡ true)))

  -- Under the invariant, and with a sink that keeps its mode: `schedule` answers an error and changes nothing in a finished simulation, for a time in the
  -- past, and when the event IDs are used up. Otherwise the event enters the pending set and the
  -- queue under the next ID, caused by the event in dispatch; nothing else changes but the trace and
  -- the telemetry, and the ID is the answer unless telemetry is on, which may throw.
  pub schedule_cases : (spec : EventSpec) (s : Simulation G S) → Inv env s → ScheduleAnswers spec s
  schedule_cases spec s v =
      let (done, past, spent) = schedule_refused env spec s in
      elim (Bool-cases (is_finished s.lifecycle)) [
        | inl f ↦ inl (f, done f)
        | inr f ↦ elim (dec_le s.now spec.timestamp) [
          | no early ↦ inr (inl (omega arith, past f (omega arith)))
          | yes late ↦ elim (Bool-cases s.event_ids.exhausted) [
            | inl x ↦ inr (inr (inl (x, spent f late x)))
            | inr x ↦
                let a : Accepts spec s = record { open_ = f; later = late; left = x } in
                let (quiet, _, answer) = schedule_accepted spec s v a in
                inr (inr (inr (a, quiet, answer)))
          ]
        ]
      ]
