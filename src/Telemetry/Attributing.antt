-- ===== src/Telemetry/Attributing.antt =====
-- telemetry/summary.cpp: every job of a summary is attributed all its time.
use nexus_lab.Prelude.{
  ℕ, ◌≤◌, ◌≡◌, ◌≢◌, ◌⊎◌, true, Option, none, some, List, if◌then◌else◌, has_value, All,
}
use nexus_lab.Prelude.Except.{Error, Result, ok, err}
use nexus_lab.Telemetry.Session.{regresses}
use nexus_lab.Telemetry.Attribution.{terminal, JobState}
use nexus_lab.Telemetry.Balance.{Balanced}
use nexus_lab.Telemetry.Summary.{SummaryBuilder, find_job}

abbrev pub Before : ℕ → Option ℕ → Type 0
Before time none = ⊥
Before time (some last) = time ≤ last

-- The phases of the job add up to the time since it was first seen, at `start job`, up to a
-- transition by `last`.
abbrev pub Seen : (ℕ → ℕ) → Option ℕ → ℕ × JobState → Type 0
Seen start last (job, s) = Balanced (start job) s × Before s.last_transition last

-- Every job of the summary is so.
abbrev pub Kept : (ℕ → ℕ) → SummaryBuilder → Type 0
Kept start b = All (Seen start b.last_timestamp) b.jobs

-- The starts after an observation at `timestamp`: a job that the summary does not know begins then.
abbrev pub starts : ℕ → List (ℕ × JobState) → (ℕ → ℕ) → ℕ → ℕ
starts timestamp jobs start job = if has_value (find_job job jobs) then start job else timestamp

-- The job is terminal, or its phase was closed at `timestamp`.
abbrev pub ClosedAt : ℕ → ℕ × JobState → Type 0
ClosedAt timestamp (job, s) = (s.snapshot.terminal ≡ true) ⊎ (s.last_transition ≡ timestamp)

-- The attribution is whole up to the end of the summary, unless that is refused.
abbrev pub Ended : ℕ → (ℕ → ℕ) → SummaryBuilder → Result (Unit {0}) × SummaryBuilder → Type 0
Ended timestamp start b (answer, after) =
    Kept start after
    × (((answer ≢ ok tt)
          × (after ≡ b)
          × ((b.is_finalized ≡ true) ⊎ (regresses timestamp b.last_timestamp ≡ true)))
        ⊎ ((answer ≡ ok tt) × All (ClosedAt timestamp) after.jobs))

abbrev refused : Error → Result (Unit {0})
refused e = err e

module _ (start : ℕ → ℕ) where
  -- A job that is not among `jobs` begins at `timestamp`.
  abbrev Begins : ℕ → List (ℕ × JobState) → Type 0
  Begins timestamp jobs = (job : ℕ) → find_job job jobs ≡ none → start job ≡ timestamp

  -- An exception leaves the jobs and the time of the summary; else the jobs are attributed up to the
  -- timestamp.
  abbrev Attributed : ℕ → SummaryBuilder → Result (Unit {0}) × SummaryBuilder → Type 0
  Attributed timestamp b (err e, d) = (d.jobs ≡ b.jobs) × (d.last_timestamp ≡ b.last_timestamp)
  Attributed timestamp b (ok done, d) = All (Seen start (some timestamp)) d.jobs
