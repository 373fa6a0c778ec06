-- ===== src/Telemetry/Limits.antt =====
-- telemetry/session.cpp: the limits of a session, for `record` and `finalize`.
use nexus_lab.Prelude.{
  ℕ, ◌≡◌, refl, inl, inr, Bool, true, false, not, ◌&&◌, Option, some, if◌then◌else◌,
}
use nexus_lab.Prelude.State.{and_then}
use nexus_lab.Prelude.Except.{Result, ok, err, Result-cases}
use nexus_lab.Telemetry.Records.{
  Correlation, TelemetryObservation, correlation_edge_count, is_decision_observation,
}
use nexus_lab.Telemetry.Session.{
  SummaryOperations, TelemetrySession, is_off, keeps_record, regresses, next_edge_count,
  push_record, emit_samples_until, check_builder, with_builder, recorded, record_checked,
  record_in_time, record_observation, finalized, finalize_in_time, finalize,
}
use nexus_lab.Telemetry.Accounts.{Within, Emitted, emit_samples_until-Emitted, Emitted-Within}
use nexus_lab.Telemetry.Retaining.{
  Room, retained-Room, push_record-Within, touched-Within, touched-Room,
}

module _ {B : Type 0} (ops : SummaryOperations B) where
  -- What `record` needs of a session for an observation that it keeps.
  abbrev Keeps : Correlation → TelemetryObservation → Bool → ℕ → TelemetrySession B → Type 0
  Keeps correlation observation retain edges v =
      retain ≡ true
      → Room (is_decision_observation observation) (correlation_edge_count correlation) v edges

  recorded-Within :
      (timestamp : ℕ) (correlation : Correlation) (observation : TelemetryObservation)
      (retain : Bool) (edges : ℕ) (answer : Result (Unit {0}) × Option B) (v w : TelemetrySession B)
      → Within v
      → Keeps correlation observation retain edges v
      → Emitted v w
      → Within (recorded ops timestamp correlation observation retain edges answer w).1
  recorded-Within timestamp correlation observation retain edges (err e, b) v w i keeps em =
      touched-Within w b w.last_timestamp w.is_finalized (Emitted-Within ops v w i em)
  recorded-Within timestamp correlation observation true edges (ok done, b) v w i keeps em =
      let u : TelemetrySession B = record w { builder = b } in
      let before =
        touched-Within w b w.last_timestamp w.is_finalized (Emitted-Within ops v w i em) in
      let pushed = push_record timestamp correlation observation edges u in
      touched-Within pushed pushed.builder (some timestamp) pushed.is_finalized (
        push_record-Within timestamp correlation observation edges u before (
          touched-Room v w (is_decision_observation observation)
            (correlation_edge_count correlation) edges b em (keeps refl)))
  recorded-Within timestamp correlation observation false edges (ok done, b) v w i keeps em =
      touched-Within w b (some timestamp) w.is_finalized (Emitted-Within ops v w i em)

  after_samples-Within :
      (timestamp : ℕ) (correlation : Correlation) (observation : TelemetryObservation)
      (retain : Bool) (edges : ℕ) (v : TelemetrySession B)
      (r : Result (Unit {0}) × TelemetrySession B)
      → Within v
      → Keeps correlation observation retain edges v
      → Emitted v r.1
      → Within
          (and_then r (λ done w.
            recorded ops timestamp correlation observation retain edges
              (with_builder ops (ops.consume timestamp correlation observation) w.builder)
              w)).1
  after_samples-Within timestamp correlation observation retain edges v (err e, w) i keeps em =
      Emitted-Within ops v w i em
  after_samples-Within timestamp correlation observation retain edges v (ok done, w) i keeps em =
      recorded-Within timestamp correlation observation retain edges _ v w i keeps em

  next_edge_count-Keeps :
      (retain : Bool) (correlation : Correlation) (observation : TelemetryObservation) (edges : ℕ)
      (v : TelemetrySession B)
      → next_edge_count retain
          (is_decision_observation observation)
          (correlation_edge_count correlation)
          v
        ≡ ok edges
      → Keeps correlation observation retain edges v
  unfolding next_edge_count
  next_edge_count-Keeps true correlation observation edges v h = λ e. retained-Room _ _ v edges h
  next_edge_count-Keeps false correlation observation edges v h =
      λ e. let impossible : ⊥ = cc in absurd impossible

  record_in_time-Within :
      (timestamp : ℕ) (correlation : Correlation) (observation : TelemetryObservation)
      (v : TelemetrySession B)
      → Within v
      → Within (record_in_time ops timestamp correlation observation v).1
  unfolding record_in_time record_checked
  record_in_time-Within timestamp correlation observation v i =
      let retain = keeps_record v.configuration.mode (is_decision_observation observation) in
      elim (Result-cases (
        next_edge_count retain (is_decision_observation observation)
          (correlation_edge_count correlation) v)) [
            | inr (e, bad) ↦ rw (bad, record_in_time) i
            | inl (edges, room) ↦
                elim (Result-cases
                  (check_builder ops timestamp correlation observation v.builder)) [
                    | inr (e, bad) ↦ rw (room, record_in_time, bad) i
                    | inl (valid, good) ↦
                        rw (room, record_in_time, good)
                          (after_samples-Within timestamp correlation observation retain edges v
                            (emit_samples_until ops timestamp false v) i
                            (next_edge_count-Keeps retain correlation observation edges v room)
                            (emit_samples_until-Emitted ops timestamp false v i.sample_limit))
                  ]
          ]

  -- A test decides between two outcomes.
  either_branch :
      (test : Bool) (x y : Result (Unit {0}) × TelemetrySession B)
      → Within x.1
      → Within y.1
      → Within (if test then x else y).1
  either_branch true x y i j = i
  either_branch false x y i j = j

  record_observation-Within :
      (timestamp : ℕ) (correlation : Correlation) (observation : TelemetryObservation)
      (v : TelemetrySession B)
      → Within v
      → Within (record_observation ops timestamp correlation observation v).1
  unfolding record_observation
  record_observation-Within timestamp correlation observation v i =
      either_branch (is_off v.configuration.mode) _ _ i (
        either_branch v.is_finalized _ _ i (
          either_branch (regresses timestamp v.last_timestamp) _ _ i
            (record_in_time-Within timestamp correlation observation v i)))

  finalized-Within :
      (timestamp : ℕ) (answer : Result (Unit {0}) × Option B) (w : TelemetrySession B)
      → Within w
      → Within (finalized ops timestamp answer w).1
  finalized-Within timestamp (err e, b) w i = touched-Within w b w.last_timestamp w.is_finalized i
  finalized-Within timestamp (ok done, b) w i = touched-Within w b (some timestamp) true i

  closed-Within :
      (timestamp : ℕ) (r : Result (Unit {0}) × TelemetrySession B)
      → Within r.1
      → Within
          (and_then r (λ done w.
            finalized ops timestamp (with_builder ops (ops.close timestamp) w.builder) w)).1
  closed-Within timestamp (err e, w) i = i
  closed-Within timestamp (ok done, w) i = finalized-Within timestamp _ w i

  finalize_in_time-Within :
      (timestamp : ℕ) (v : TelemetrySession B)
      → Within v
      → Within (finalize_in_time ops timestamp v).1
  unfolding finalize_in_time
  finalize_in_time-Within timestamp v i =
      closed-Within timestamp (emit_samples_until ops timestamp true v)
        (Emitted-Within ops v _ i (emit_samples_until-Emitted ops timestamp true v i.sample_limit))

  finalize-Within :
      (timestamp : ℕ) (v : TelemetrySession B) → Within v → Within (finalize ops timestamp v).1
  unfolding finalize
  finalize-Within timestamp v i = either_branch v.is_finalized _ _ i (
      either_branch (not (is_off v.configuration.mode) && regresses timestamp v.last_timestamp) _ _
        i (finalize_in_time-Within timestamp v i))

  -- On every branch, exceptions included, `record` and `finalize` keep a session within its limits
  -- on records, edges and samples, with counters that are those of the records it keeps and with
  -- records numbered from 0 on.
  pub session-Within :
      (timestamp : ℕ) (correlation : Correlation) (observation : TelemetryObservation)
      (v : TelemetrySession B)
      → Within v
      → Within (record_observation ops timestamp correlation observation v).1
        × Within (finalize ops timestamp v).1
  session-Within timestamp correlation observation v i = (
    record_observation-Within timestamp correlation observation v i,
    finalize-Within timestamp v i,
  )
