-- ===== src/Sim/Quiet.antt =====
-- What observation leaves alone: telemetry and the trace of sim/simulation.cpp change nothing that
-- the order of events depends on.
use nexus_lab.Prelude.{
  ℕ, ◌≡◌, refl, ap, ◌∙◌, inl, inr, Bool, true, false, Option, arith, Bool-cases,
}
use nexus_lab.Prelude.Except.{Result, ok, err}
use nexus_lab.Prelude.State.{M, when, and_then}
use nexus_lab.Telemetry.Records.{Correlation, TelemetryObservation, SimulationTransition}
use nexus_lab.Sim.Trace
use nexus_lab.Sim.Trace.{TraceAction, StopReason}
use nexus_lab.Sim.Env.{Env, KeepsMode}
use nexus_lab.Sim.Simulation.{
  Simulation, EventTraceMetadata, settle, event_entry, record_telemetry, record_event,
  telemetry_enabled, emit_simulation_observation, emit_metric,
}

-- `t` differs from `s` in the records of the trace and in the telemetry alone.
pub record Quiet {G S : Type 0} (env : Env G S) (s t : Simulation G S) : Type 0 where
  pub same :
      t
      ≡ record s { trace = t.trace; telemetry = t.telemetry; telemetry_failed = t.telemetry_failed }
  pub mode : t.trace.mode ≡ s.trace.mode
  pub sink : env.enabled t.telemetry ≡ env.enabled s.telemetry

module _ {G S : Type 0} (env : Env G S) where
  pub Quiet-refl : (s : Simulation G S) → Quiet env s s
  Quiet-refl s = record { same = refl; mode = refl; sink = refl }

  pub Quiet-trans : {s t u : Simulation G S} → Quiet env s t → Quiet env t u → Quiet env s u
  Quiet-trans {s} {t} {u} p q = record {
    same =
        q.same
        ∙ ap
            (λ (r : Simulation G S). record r {
              trace = u.trace;
              telemetry = u.telemetry;
              telemetry_failed = u.telemetry_failed;
            })
            p.same;
    mode = q.mode ∙ p.mode;
    sink = q.sink ∙ p.sink;
  }

pub append-mode :
    (r : Trace.TraceRecord) (log : Trace.TraceLog) → (Trace.append r log).mode ≡ log.mode
unfolding Trace.append
append-mode r log = ground arith

module _ {G S : Type 0} (env : Env G S) where
  -- With telemetry off nothing is reported, and nothing is thrown.
  pub emit_simulation_observation_off :
      (transition : SimulationTransition) (event cause : Option ℕ) (s : Simulation G S)
      → telemetry_enabled env s ≡ false
      → emit_simulation_observation env transition event cause s ≡ (ok tt, s)
  unfolding emit_simulation_observation
  emit_simulation_observation_off transition event cause s off = rw off

  pub emit_metric_off :
      (o : TelemetryObservation) (s : Simulation G S)
      → telemetry_enabled env s ≡ false
      → emit_metric env o s ≡ (ok tt, s)
  unfolding emit_metric
  emit_metric_off o s off = rw off

module _ {G S : Type 0} (env : Env G S) (keeps : KeepsMode env) where
  settle-Quiet :
      (s : Simulation G S) (answer : Result (Unit {0}) × S)
      → env.enabled answer.1 ≡ env.enabled s.telemetry
      → Quiet env s (settle s answer).1
  settle-Quiet s (ok u, sink) e = record { same = refl; mode = refl; sink = e }
  settle-Quiet s (err x, sink) e = record { same = refl; mode = refl; sink = e }

  record_telemetry-Quiet :
      (c : Correlation) (o : TelemetryObservation) (s : Simulation G S)
      → Quiet env s (record_telemetry env c o s).1
  unfolding record_telemetry
  record_telemetry-Quiet c o s = settle-Quiet s _ (keeps s.now c o s.telemetry)

  pub emit_simulation_observation-Quiet :
      (transition : SimulationTransition) (event cause : Option ℕ) (s : Simulation G S)
      → Quiet env s (emit_simulation_observation env transition event cause s).1
  unfolding emit_simulation_observation
  emit_simulation_observation-Quiet transition event cause s =
      elim (Bool-cases (telemetry_enabled env s)) [
        | inl e ↦ rw e (record_telemetry-Quiet _ _ s)
        | inr e ↦ rw e (Quiet-refl env s)
      ]

  pub emit_metric-Quiet :
      (o : TelemetryObservation) (s : Simulation G S) → Quiet env s (emit_metric env o s).1
  unfolding emit_metric
  emit_metric-Quiet o s = elim (Bool-cases (telemetry_enabled env s)) [
    | inl e ↦ rw e (record_telemetry-Quiet _ o s)
    | inr e ↦ rw e (Quiet-refl env s)
  ]

  pub record_event-Quiet :
      (action : TraceAction) (at : ℕ) (m : EventTraceMetadata) (reason : Option StopReason)
      (s : Simulation G S)
      → Quiet env s (record_event action at m reason s).1
  unfolding record_event
  record_event-Quiet action at m reason s = record {
    same = refl;
    mode = append-mode (event_entry action at m reason) s.trace;
    sink = refl;
  }

  pub when-Quiet :
      (b : Bool) (m : M (Simulation G S) (Unit {0})) (s : Simulation G S)
      → Quiet env s (m s).1
      → Quiet env s (when b m s).1
  when-Quiet true m s q = q
  when-Quiet false m s q = Quiet-refl env s

  -- Quiet steps in sequence are quiet.
  pub and_then-Quiet :
      {A B : Type 0} (m : Result A × Simulation G S) (k : A → M (Simulation G S) B)
      {s : Simulation G S}
      → Quiet env s m.1
      → ((a : A) (t : Simulation G S) → Quiet env t (k a t).1)
      → Quiet env s (and_then m k).1
  and_then-Quiet (ok a, t) k q rest = Quiet-trans env q (rest a t)
  and_then-Quiet (err e, t) k q rest = q
