-- ===== src/Sim/Env.antt =====
-- What the engine takes from outside: the random engine of the C++ library, and the telemetry sink
-- (telemetry/session.hpp) as its two operations.
use nexus_lab.Prelude.{ℕ, ◌≡◌, Bool}
use nexus_lab.Prelude.State.{M}
use nexus_lab.Telemetry.Records.{Correlation, TelemetryObservation}

-- `G` is the state of `std::mt19937_64`, `S` the state behind a `TelemetrySink`.
pub record Env (G S : Type 0) : Type 0 where
  -- the engine that a seed gives, and its call operator
  pub seeded : ℕ → G
  pub draw : G → ℕ × G
  -- `TelemetrySink::enabled` and `TelemetrySink::record`, which may throw
  pub enabled : S → Bool
  pub record_observation : ℕ → Correlation → TelemetryObservation → M S (Unit {0})

-- Recording leaves the mode of a session as it is.
abbrev pub KeepsMode : {G S : Type 0} → Env G S → Type 0
KeepsMode {S} env =
    (t : ℕ) (c : Correlation) (o : TelemetryObservation) (s : S)
    → env.enabled (env.record_observation t c o s).1 ≡ env.enabled s
