-- ===== src/Sim/Ending.antt =====
-- How `run` of sim/simulation.hpp ends: every exception inside it becomes a failed result.
use nexus_lab.Prelude.{
  ℕ, zero, suc, ◌≡◌, refl, ◌⊎◌, inl, inr, true, false, Option, none, some, Bool-cases, Option-cases,
}
use nexus_lab.Prelude.Except.{Error, logic_error, Text, Result, ok, err, Result-cases}
use nexus_lab.Prelude.State.{M, and_then}
use nexus_lab.Sim.Env.{Env}
use nexus_lab.Sim.Simulation.{Simulation, finished, is_created, telemetry_enabled, trace_enabled}
use nexus_lab.Sim.Run.{
  SimulationStatus, SimulationResult, completed, stopped, failed, record_terminal, begin_run,
  emit_terminal_telemetry, terminal_record, finish, recover, fail, Dispatcher, Outcome, run_loop,
  catch_all, started, begun, run, next_dispatchable_event, dispatch,
}

module _ {G S : Type 0} where
  -- A result in a finished simulation.
  abbrev pub Finished : Result SimulationResult → Simulation G S → Type 0
  Finished answer s = (r : SimulationResult) × (answer ≡ ok r) × (s.lifecycle ≡ finished)

  -- A result in a finished simulation, or an exception.
  abbrev Ended : Result SimulationResult × Simulation G S → Type 0
  Ended answer = Finished answer.0 answer.1 ⊎ ((e : Error) × (answer.0 ≡ err e))

  and_then-Ended :
      {A : Type 0} (m : Result A × Simulation G S) (k : A → M (Simulation G S) SimulationResult)
      → ((a : A) (t : Simulation G S) → Ended (k a t))
      → Ended (and_then m k)
  and_then-Ended (ok a, t) k rest = rest a t
  and_then-Ended (err e, t) k rest = inr (e, refl)

module _ {G S : Type 0} (env : Env G S) where
  finish-Ended :
      (status : SimulationStatus) (error : Option Text) (s : Simulation G S)
      → Ended (finish env status error s)
  unfolding finish
  finish-Ended status error s =
      and_then-Ended (emit_terminal_telemetry env status s) _
        (λ _ t. and_then-Ended (terminal_record env status error t) _ (λ _ u. inl (_, refl, refl)))

  -- With telemetry marked as failed nothing is thrown.
  finish-quiet :
      (error : Option Text) (s : Simulation G S)
      → s.telemetry_failed ≡ true
      → Finished (finish env failed error s).0 (finish env failed error s).1
  unfolding finish emit_terminal_telemetry record_terminal
  finish-quiet error s f = elim (Bool-cases (telemetry_enabled env s)) [
    | inl on ↦ elim (Bool-cases (trace_enabled s)) [
      | inl t ↦ rw (on, f, t) (_, refl, refl)
      | inr t ↦ rw (on, f, t) (_, refl, refl)
    ]
    | inr off ↦ elim (Bool-cases (trace_enabled s)) [
      | inl t ↦ rw (off, t) (_, refl, refl)
      | inr t ↦ rw (off, t) (_, refl, refl)
    ]
  ]

  recover-Finished :
      (answer : Result SimulationResult × Simulation G S)
      → Ended answer
      → Finished (recover env answer).0 (recover env answer).1
  unfolding recover
  recover-Finished (ok r, s) (inl (_, _, l)) = (r, refl, l)
  recover-Finished (ok r, s) (inr (x, e)) = let no_error : ⊥ = cc in absurd no_error
  recover-Finished (err x, s) ended = finish-quiet _ (record s { telemetry_failed = true }) refl

  -- `fail` throws nothing, and leaves the simulation finished.
  pub fail-Finished :
      (error : Text) (s : Simulation G S) → Finished (fail env error s).0 (fail env error s).1
  unfolding fail
  fail-Finished error s =
      recover-Finished (finish env failed (some error) s) (finish-Ended failed (some error) s)

module _ {G S D : Type 0} (env : Env G S) (dispatcher : Dispatcher G S D) where
  -- A run that has ended within its fuel has a result and a finished simulation, or an exception.
  abbrev EndedRun : Outcome G S D → Type 0
  EndedRun none = Unit {0}
  EndedRun (some (answer, d, s)) = Ended (answer, s)

  -- A run that has ended within its fuel has a result, and its simulation is finished.
  abbrev pub FinishedRun : Outcome G S D → Type 0
  FinishedRun none = Unit {0}
  FinishedRun (some (answer, d, s)) = Finished answer s

  catch_all-FinishedRun :
      (o : Outcome G S D) → EndedRun o → FinishedRun (catch_all env dispatcher o)
  unfolding catch_all
  catch_all-FinishedRun none h = tt
  catch_all-FinishedRun (some (ok r, d, s)) (inl (q, _, l)) = (r, refl, l)
  catch_all-FinishedRun (some (ok r, d, s)) (inr (x, e)) = let no_error : ⊥ = cc in absurd no_error
  catch_all-FinishedRun (some (err x, d, s)) h = fail-Finished env _ s

  run_loop-EndedRun :
      (fuel : ℕ) (d : D) (s : Simulation G S) → EndedRun (run_loop env dispatcher fuel d s)
  unfolding run_loop
  run_loop-EndedRun zero d s = tt
  run_loop-EndedRun (suc fuel) d s = elim (Option-cases s.stop_reason) [
    | inr (reason, stop) ↦ rw (stop, run_loop) (finish-Ended env stopped none _)
    | inl go ↦ elim (Option-cases (next_dispatchable_event s).0) [
      | inl last ↦ rw (go, run_loop, last) (finish-Ended env completed none _)
      | inr (e, next) ↦
          let outcome = dispatch env dispatcher e d (next_dispatchable_event s).1 in
          elim (Result-cases outcome.0) [
            | inl (u, fine) ↦
                rw (go, run_loop, next, fine) (run_loop-EndedRun fuel outcome.1 outcome.2)
            | inr (x, thrown) ↦ rw (go, run_loop, next, thrown) (inr (x, refl))
          ]
    ]
  ]

  started-EndedRun :
      (fuel : ℕ) (d : D) (answer : Result (Unit {0}) × Simulation G S)
      → EndedRun (started env dispatcher fuel d answer)
  unfolding started
  started-EndedRun fuel d (ok u, s) = run_loop-EndedRun fuel d s
  started-EndedRun fuel d (err e, s) = inr (e, refl)

  -- A new simulation can be run; whatever its handlers and the telemetry throw, a run that has ended
  -- within the fuel returns a result, and leaves the simulation finished.
  pub run-FinishedRun :
      (fuel : ℕ) (d : D) (s : Simulation G S)
      → is_created s.lifecycle ≡ true
      → FinishedRun (run env dispatcher fuel d s)
  unfolding run begun begin_run
  run-FinishedRun fuel d s c = rw c (catch_all-FinishedRun _ (started-EndedRun fuel d _))

  -- A simulation runs once: a second call of `run` throws and changes nothing.
  run_once :
      (fuel : ℕ) (d : D) (s : Simulation G S)
      → is_created s.lifecycle ≡ false
      → run env dispatcher fuel d s
        ≡ some (err (logic_error "simulation can only be run once"), d, s)
  unfolding run begun begin_run
  run_once fuel d s c = rw c
