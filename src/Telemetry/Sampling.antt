-- ===== src/Telemetry/Sampling.antt =====
-- telemetry/session.cpp: the loop over the sample boundaries ends with no boundary left to sample.
use nexus_lab.Prelude.{
  ℕ, zero, suc, ◌+◌, ◌-◌, ◌<◌, ◌≡◌, ◌⊎◌, refl, inl, inr, Bool, true, false, ◌&&◌, ◌||◌, Option,
  none, some, ◌++◌, map, arith, length, ltb, ◌==◌, Bool-cases, Option-cases, u64_max,
}
use nexus_lab.Prelude.Sorting.{select}
use nexus_lab.Prelude.Except.{Error, Result, err}
use nexus_lab.Telemetry.Session.{
  SummaryOperations, TelemetrySession, is_sampled, sample_at, next_boundary, due, snapshots_of,
  append_sample_frame, advance, sample_loop,
}

-- The fuel reaches beyond `timestamp`.
abbrev pub Reaches : ℕ → ℕ → Option ℕ → Type 0
Reaches fuel timestamp none = Unit
Reaches fuel timestamp (some next) = timestamp < fuel + next

before_due :
    (timestamp : ℕ) (inclusive : Bool) (o : Option ℕ)
    → Reaches 0 timestamp o
    → due timestamp inclusive o ≡ none
before_due timestamp inclusive none h = refl
before_due timestamp true (some next) h = ground arith
before_due timestamp false (some next) h = ground arith

due_before :
    (timestamp at fuel : ℕ) (inclusive : Bool) (o : Option ℕ)
    → due timestamp inclusive o ≡ some at
    → Reaches (suc fuel) timestamp o
    → timestamp < suc fuel + at
due_before timestamp at fuel inclusive none h r = let impossible : ⊥ = cc in absurd impossible
due_before timestamp at fuel inclusive (some next) h r =
    elim (Bool-cases (ltb next timestamp || inclusive && next == timestamp)) [
      | inl is_due ↦
          let found = rw is_due at h in let same : next ≡ at = cc in omega (arith, same, r)
      | inr not_due ↦ let found = rw not_due at h in let impossible : ⊥ = cc in absurd impossible
    ]

next_boundary-Reaches :
    (interval timestamp fuel at : ℕ)
    → 0 < interval
    → timestamp < suc fuel + at
    → Reaches fuel timestamp (next_boundary interval at)
next_boundary-Reaches interval timestamp fuel at positive h =
    elim (Bool-cases (ltb (u64_max - at) interval)) [
      | inl over ↦ rw over tt
      | inr fits ↦ rw fits (omega (arith, positive, h))
    ]

module _ {B : Type 0} (ops : SummaryOperations B) where
  -- The loop throws, or it leaves no boundary that is due.
  abbrev pub Done : ℕ → Bool → Result (Unit {0}) × TelemetrySession B → Type 0
  Done timestamp inclusive r =
      ((e : Error) × (r.0 ≡ err e)) ⊎ (due timestamp inclusive r.1.next_sample_timestamp ≡ none)

  -- For a positive interval the fuel of the loop is enough, if it reaches beyond the time from the
  -- next boundary on: the loop throws, or it leaves no boundary that is due.
  pub sample_loop-Done :
      (fuel timestamp : ℕ) (inclusive : Bool) (v : TelemetrySession B)
      → 0 < v.configuration.sample_interval_ns
      → Reaches fuel timestamp v.next_sample_timestamp
      → Done timestamp inclusive (sample_loop ops fuel timestamp inclusive v)
  unfolding sample_loop append_sample_frame
  sample_loop-Done zero timestamp inclusive v positive h =
      inr (before_due timestamp inclusive v.next_sample_timestamp h)
  sample_loop-Done (suc fuel) timestamp inclusive v positive h =
      elim (Option-cases (due timestamp inclusive v.next_sample_timestamp)) [
        | inl none_due ↦ rw (none_due, sample_loop) (inr none_due)
        | inr (at, is_due) ↦
            let frame = select is_sampled (snapshots_of ops v.builder) in
            let beyond = due_before timestamp at fuel inclusive v.next_sample_timestamp is_due h in
            elim (Bool-cases
              (ltb (v.configuration.limits.samples - length v.samples) (length frame))) [
                | inl full ↦ rw (is_due, sample_loop, full) (inl (_, refl))
                | inr room ↦
                    rw (is_due, sample_loop, room)
                      (sample_loop-Done fuel timestamp inclusive
                        (advance ops at
                          (record v { samples = v.samples ++ map (sample_at at) frame }))
                        positive
                        (next_boundary-Reaches v.configuration.sample_interval_ns timestamp fuel at
                          positive beyond))
              ]
      ]
