-- ===== src/Telemetry/Accounts.antt =====
-- telemetry/session.cpp: the accounts of what a session keeps, and what the samples leave of them.
use nexus_lab.Prelude.{
  ℕ, zero, suc, ◌+◌, ◌-◌, ◌≤◌, ◌≡◌, refl, inl, inr, Bool, false, Option, List, [], ◌∷◌, ◌++◌, map,
  arith, length, length-append, ltb, ◌==◌, if◌then◌else◌, Bool-cases, Option-cases,
}
use nexus_lab.Prelude.Sorting.{select}
use nexus_lab.Telemetry.Records.{correlation_edge_count, is_decision_observation}
use nexus_lab.Telemetry.Registry.{MetricSeriesSnapshot}
use nexus_lab.Telemetry.Session.{
  SummaryOperations, TelemetryRecord, TelemetrySession, keeps_samples, is_sampled, sample_at, due,
  snapshots_of, append_sample_frame, advance, sample_loop, emit_samples_until,
}

abbrev pub count_decisions : List TelemetryRecord → ℕ
count_decisions [] = 0
count_decisions (r ∷ rs) =
    (if is_decision_observation r.observation then 1 else 0) + count_decisions rs

abbrev pub total_edges : List TelemetryRecord → ℕ
total_edges [] = 0
total_edges (r ∷ rs) = correlation_edge_count r.correlation + total_edges rs

-- The records are numbered one after the other, from `n` on.
abbrev pub Numbered : ℕ → List TelemetryRecord → Type 0
Numbered n [] = Unit
Numbered n (r ∷ rs) = (r.id ≡ n) × Numbered (suc n) rs

-- The counters are those of the records that are kept, and nothing is over its limit.
pub record Within {B : Type 0} (v : TelemetrySession B) : Type 0 where
  pub decisions : v.retained_decisions ≡ count_decisions v.records
  pub all : v.retained_decisions + v.retained_domain_records ≡ length v.records
  pub edges : v.retained_edges ≡ total_edges v.records
  pub decision_limit : v.retained_decisions ≤ v.configuration.limits.decision_records
  pub domain_limit : v.retained_domain_records ≤ v.configuration.limits.domain_records
  pub edge_limit : v.retained_edges ≤ v.configuration.limits.correlation_edges
  pub sample_limit : length v.samples ≤ v.configuration.limits.samples
  pub numbered : Numbered 0 v.records
  pub next : v.record_ids_exhausted ≡ false → v.next_record_id ≡ length v.records

pub count_decisions-append :
    (xs ys : List TelemetryRecord)
    → count_decisions (xs ++ ys) ≡ count_decisions xs + count_decisions ys
count_decisions-append [] ys = omega arith
count_decisions-append (x ∷ xs) ys = omega (arith, count_decisions-append xs ys)

pub total_edges-append :
    (xs ys : List TelemetryRecord) → total_edges (xs ++ ys) ≡ total_edges xs + total_edges ys
total_edges-append [] ys = omega arith
total_edges-append (x ∷ xs) ys = omega (arith, total_edges-append xs ys)

pub Numbered-append :
    (n : ℕ) (xs : List TelemetryRecord) (r : TelemetryRecord)
    → Numbered n xs
    → r.id ≡ n + length xs
    → Numbered n (xs ++ r ∷ [])
Numbered-append n [] r h e = (omega (arith, e), tt)
Numbered-append n (x ∷ xs) r h e = (h.0, Numbered-append (suc n) xs r h.1 (omega (arith, e)))

length-map : {X Y : Type 0} (f : X → Y) (xs : List X) → length (map f xs) ≡ length xs
length-map f [] = refl
length-map f (x ∷ xs) = omega (arith, length-map f xs)

-- `w` is `v` with other samples, within their limit, and another boundary.
abbrev pub Emitted : {B : Type 0} → TelemetrySession B → TelemetrySession B → Type 0
Emitted v w =
    (samples : _) × (next : Option ℕ) × (w
      ≡ record v { samples = samples; next_sample_timestamp = next })
    × (length samples ≤ v.configuration.limits.samples)

module _ {B : Type 0} (ops : SummaryOperations B) where
  sample_loop-Emitted :
      (fuel timestamp : ℕ) (inclusive : Bool) (v : TelemetrySession B)
      → length v.samples ≤ v.configuration.limits.samples
      → Emitted v (sample_loop ops fuel timestamp inclusive v).1
  unfolding sample_loop append_sample_frame
  sample_loop-Emitted zero timestamp inclusive v fits =
      (v.samples, v.next_sample_timestamp, refl, fits)
  sample_loop-Emitted (suc fuel) timestamp inclusive v fits =
      elim (Option-cases (due timestamp inclusive v.next_sample_timestamp)) [
        | inl none_due ↦ rw (none_due, sample_loop) (v.samples, v.next_sample_timestamp, refl, fits)
        | inr (at, is_due) ↦
            let frame = select is_sampled (snapshots_of ops v.builder) in
            elim (Bool-cases
              (ltb (v.configuration.limits.samples - length v.samples) (length frame))) [
                | inl full ↦
                    rw (is_due, sample_loop, full) (v.samples, v.next_sample_timestamp, refl, fits)
                | inr room ↦
                    rw (is_due, sample_loop, room)
                      (sample_loop-Emitted fuel timestamp inclusive
                        (advance ops at
                          (record v { samples = v.samples ++ map (sample_at at) frame }))
                        (more at frame v.samples fits room))
              ]
      ]
    where
      more :
          (at : ℕ) (frame : List MetricSeriesSnapshot) (samples : _)
          → length samples ≤ v.configuration.limits.samples
          → ltb (v.configuration.limits.samples - length samples) (length frame) ≡ false
          → length (samples ++ map (sample_at at) frame) ≤ v.configuration.limits.samples
      more at frame samples fits room =
          ground (
            arith,
            length-append samples (map (sample_at at) frame),
            length-map (sample_at at) frame,
          )

  pub emit_samples_until-Emitted :
      (timestamp : ℕ) (inclusive : Bool) (v : TelemetrySession B)
      → length v.samples ≤ v.configuration.limits.samples
      → Emitted v (emit_samples_until ops timestamp inclusive v).1
  unfolding emit_samples_until
  emit_samples_until-Emitted timestamp inclusive v fits =
      elim (Bool-cases (keeps_samples v.configuration.mode)) [
        | inr not_kept ↦ rw not_kept (v.samples, v.next_sample_timestamp, refl, fits)
        | inl kept ↦
            elim (Bool-cases (length (select is_sampled (snapshots_of ops v.builder)) == 0)) [
              | inl nothing ↦ rw (kept, nothing) (v.samples, _, refl, fits)
              | inr some_series ↦
                  rw (kept, some_series)
                    (sample_loop-Emitted (suc timestamp) timestamp inclusive v fits)
            ]
      ]

  pub Emitted-Within : (v w : TelemetrySession B) → Within v → Emitted v w → Within w
  Emitted-Within v w i (samples, next, same, fits) = rw same record {
    decisions = i.decisions;
    all = i.all;
    edges = i.edges;
    decision_limit = i.decision_limit;
    domain_limit = i.domain_limit;
    edge_limit = i.edge_limit;
    sample_limit = fits;
    numbered = i.numbered;
    next = i.next;
  }
