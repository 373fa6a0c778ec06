-- ===== src/Telemetry/Validating.antt =====
-- telemetry/metrics.cpp: an operation of the registry and its validation.
use nexus_lab.Prelude.{
  ℕ, zero, suc, ◌+◌, ◌≤◌, ◌<◌, ◌≡◌, refl, ap, ◌∙◌, inl, inr, Option, none, some, List, [], ◌∷◌,
  arith, length, leb, Bool-cases, u64_max,
}
use nexus_lab.Prelude.Except.{Error, Result, ok, err, Result-cases}
use nexus_lab.Telemetry.Configuration.{MetricKind, counter, gauge, histogram}
use nexus_lab.Telemetry.Metrics.{MetricId, MetricLabels}
use nexus_lab.Telemetry.Catalog.{metric_definition}
use nexus_lab.Telemetry.Registry.{
  MetricSeriesKey, MetricSeriesState, MetricSeriesSnapshot, MetricRegistry, kind_eq, key_before,
  key_eq, checked_add, validate_labels, find_series, emplace, set_series, within_limit,
  validate_series_of, validate_series, boundaries, zeros, new_state, found_or_new, write_series,
  apply, write_scalar, increment, set_gauge, bucket_of, bucket_at, write_bucket, observe, discard,
  validate_scalar, validate_increment, validate_set_gauge, validate_bucket, validate_observe,
}

-- An operation answers what its validation answers; if that is an exception the registry is as it
-- was, and the limit on the series holds on every branch.
pub record Validated (r : MetricRegistry) (check : Result (Unit {0}))
    (outcome : Result (Unit {0}) × MetricRegistry) : Type 0 where
  pub same : outcome.0 ≡ check
  pub kept : (e : Error) → check ≡ err e → outcome.1 ≡ r
  pub maximum : outcome.1.maximum_series ≡ r.maximum_series
  pub bounded : length outcome.1.series ≤ r.maximum_series

length-emplace :
    (key : MetricSeriesKey) (state : MetricSeriesState) (series : List MetricSeriesSnapshot)
    → length (emplace key state series) ≡ length series + 1
unfolding emplace
length-emplace key state [] = refl
length-emplace key state (s ∷ rest) = elim (Bool-cases (key_before key s.key)) [
  | inl before ↦ rw before (omega arith)
  | inr after ↦ rw after (omega (arith, length-emplace key state rest))
]

length-set_series :
    (key : MetricSeriesKey) (state : MetricSeriesState) (series : List MetricSeriesSnapshot)
    → length (set_series key state series) ≡ length series
unfolding set_series
length-set_series key state [] = refl
length-set_series key state (s ∷ rest) = elim (Bool-cases (key_eq s.key key)) [
  | inl here ↦ rw here refl
  | inr there ↦ rw there (omega (arith, length-set_series key state rest))
]

-- What `validate_series` finds is in the map, and there is room for what it does not find.
abbrev Finds : MetricSeriesKey → MetricRegistry → Option MetricSeriesState → Type 0
Finds key r found =
    (find_series key r.series ≡ found) × (found ≡ none → length r.series < r.maximum_series)

within_limit-Finds :
    (key : MetricSeriesKey) (r : MetricRegistry) (o found : Option MetricSeriesState)
    → find_series key r.series ≡ o
    → within_limit r o ≡ ok found
    → Finds key r found
within_limit-Finds key r (some state) found is h = (is ∙ same h, λ gone. absurd (present h gone))
  where
    same : ok (some state) ≡ ok found → some state ≡ found
    same h = cc

    present : ok (some state) ≡ ok found → found ≡ none → ⊥
    present h gone = cc
within_limit-Finds key r none found is h =
    elim (Bool-cases (leb r.maximum_series (length r.series))) [
      | inl full ↦ let no_room = rw full at h in let impossible : ⊥ = cc in absurd impossible
      | inr room ↦
          let none_found = rw room at h in
          let same : none ≡ found = cc in (is ∙ same, λ gone. ground arith)
    ]

validate_series-Finds :
    (key : MetricSeriesKey) (expected : MetricKind) (r : MetricRegistry)
    (found : Option MetricSeriesState)
    → validate_series key expected r ≡ ok found
    → Finds key r found
unfolding validate_series validate_series_of
validate_series-Finds key expected r found h = elim (Result-cases (metric_definition key.metric)) [
  | inr (e, unknown) ↦
      let refused = rw (unknown, validate_series) at h in
      let impossible : ⊥ = cc in absurd impossible
  | inl (d, known) ↦
      let checked = rw (known, validate_series) at h in
      elim (Result-cases (validate_labels d key.labels)) [
        | inr (e, bad) ↦
            let refused = rw (bad, validate_series_of) at checked in
            let impossible : ⊥ = cc in absurd impossible
        | inl (valid, good) ↦
            let labelled = rw (good, validate_series_of) at checked in
            elim (Bool-cases (kind_eq d.kind expected)) [
              | inl kind ↦ within_limit-Finds key r _ found refl (rw kind at labelled)
              | inr kind ↦
                  let refused = rw kind at labelled in let impossible : ⊥ = cc in absurd impossible
            ]
      ]
]

found_or_new-Validated :
    (key : MetricSeriesKey) (expected : MetricKind)
    (write : MetricSeriesState → Result MetricSeriesState) (r : MetricRegistry)
    (check : Option MetricSeriesState → Result (Unit {0})) (found : Option MetricSeriesState)
    → (next : MetricSeriesState) × (write (new_state key.metric expected) ≡ ok next)
    → (check none ≡ ok tt)
    → ((state : MetricSeriesState) → check (some state) ≡ discard (write state))
    → length r.series ≤ r.maximum_series
    → (found ≡ none → length r.series < r.maximum_series)
    → Validated r (check found) (write_series key write (found_or_new key expected r found))
found_or_new-Validated key expected write r check none (next, fresh) new agree bound room =
    rw (new, fresh)
      record {
        same = refl;
        kept = λ e h. let impossible : ⊥ = cc in absurd impossible;
        maximum = refl;
        bounded = omega (
          arith,
          length-set_series key next (emplace key (new_state key.metric expected) r.series),
          length-emplace key (new_state key.metric expected) r.series,
          room refl,
        );
      }
found_or_new-Validated key expected write r check (some state) fresh new agree bound room =
    elim (Result-cases (write state)) [
      | inr (e, bad) ↦
          rw (agree state, bad)
            record { same = refl; kept = λ e' h. refl; maximum = refl; bounded = bound }
      | inl (next, good) ↦
          rw (agree state, good)
            record {
              same = refl;
              kept = λ e h. let impossible : ⊥ = cc in absurd impossible;
              maximum = refl;
              bounded = omega (arith, length-set_series key next r.series, bound);
            }
    ]

-- `apply` and the validation of the same series, for an operation that never throws on a new series.
apply-Validated :
    (key : MetricSeriesKey) (expected : MetricKind)
    (write : MetricSeriesState → Result MetricSeriesState) (r : MetricRegistry)
    (check : Option MetricSeriesState → Result (Unit {0}))
    (checked : Result (Option MetricSeriesState) → Result (Unit {0}))
    → (next : MetricSeriesState) × (write (new_state key.metric expected) ≡ ok next)
    → (check none ≡ ok tt)
    → ((state : MetricSeriesState) → check (some state) ≡ discard (write state))
    → ((e : Error) → checked (err e) ≡ err e)
    → ((found : Option MetricSeriesState) → checked (ok found) ≡ check found)
    → length r.series ≤ r.maximum_series
    → Validated r (checked (validate_series key expected r)) (apply key expected write r)
unfolding apply
apply-Validated key expected write r check checked fresh new agree throws answers bound =
    elim (Result-cases (validate_series key expected r)) [
      | inr (e, bad) ↦
          rw (bad, apply, throws e)
            record { same = refl; kept = λ e' h. refl; maximum = refl; bounded = bound }
      | inl (found, good) ↦
          let (is, room) = validate_series-Finds key expected r found good in
          rw (good, apply, is, answers found)
            (found_or_new-Validated key expected write r check found fresh new agree bound room)
    ]

small_sum : (left right : ℕ) → left + right ≤ u64_max → checked_add left right ≡ ok (left + right)
unfolding checked_add
small_sum left right fits = ground arith

write_scalar-validate_scalar :
    (amount : ℕ) (state : MetricSeriesState)
    → validate_scalar amount (some state) ≡ discard (write_scalar amount state)
unfolding write_scalar
write_scalar-validate_scalar amount state = elim (Result-cases (checked_add state.scalar amount)) [
  | inr (e, bad) ↦ rw (bad, write_scalar) refl
  | inl (sum, good) ↦ rw (good, write_scalar) refl
]

bucket_at-zeros : (n bucket : ℕ) → bucket_at (zeros n) bucket ≡ 0
bucket_at-zeros zero bucket = refl
bucket_at-zeros (suc n) zero = refl
bucket_at-zeros (suc n) (suc bucket) = bucket_at-zeros n bucket

write_bucket-validate_bucket :
    (value bucket : ℕ) (state : MetricSeriesState)
    → validate_bucket value bucket (some state) ≡ discard (write_bucket value bucket state)
unfolding write_bucket
write_bucket-validate_bucket value bucket state =
    elim (Result-cases (checked_add (bucket_at state.histogram_buckets bucket) 1)) [
      | inr (e, bad) ↦ rw (bad, validate_bucket, write_bucket) refl
      | inl (n, good) ↦ elim (Result-cases (checked_add state.histogram_count 1)) [
        | inr (e, bad) ↦ rw (good, validate_bucket, write_bucket, bad) refl
        | inl (c, also) ↦ elim (Result-cases (checked_add state.histogram_sum value)) [
          | inr (e, bad) ↦ rw (good, validate_bucket, write_bucket, also, bad) refl
          | inl (s, last) ↦ rw (good, validate_bucket, write_bucket, also, last) refl
        ]
      ]
    ]

write_bucket_empty :
    (value bucket : ℕ) (state : MetricSeriesState)
    → checked_add (bucket_at state.histogram_buckets bucket) 1 ≡ ok 1
    → checked_add state.histogram_count 1 ≡ ok 1
    → checked_add state.histogram_sum value ≡ ok value
    → (next : MetricSeriesState) × (write_bucket value bucket state ≡ ok next)
unfolding write_bucket
write_bucket_empty value bucket state n c s = rw (n, write_bucket, c, s) (_, refl)

write_bucket_new :
    (metric : MetricId) (value bucket : ℕ)
    → value ≤ u64_max
    → (next : MetricSeriesState) × (write_bucket value bucket (new_state metric histogram)
        ≡ ok next)
write_bucket_new metric value bucket fits =
    let size = length (boundaries metric) + 1 in
    let one = small_sum 0 1 (omega arith) in
    let first : checked_add (bucket_at (zeros size) bucket) 1 ≡ ok 1 =
      rw (bucket_at-zeros size bucket) one in
    write_bucket_empty value bucket (new_state metric histogram) first one
      (small_sum 0 value (omega (arith, fits)) ∙ ap (λ n. ok n) (omega arith))

-- On a registry within its limit and for a 64-bit amount, each of `increment`, `set_gauge` and
-- `observe` answers exactly what its `validate_` function answers; where that is an exception the
-- registry stays as it was, and its limit on the series holds on every branch.
pub operations-Validated :
    (metric : MetricId) (labels : MetricLabels) (amount : ℕ) (r : MetricRegistry)
    → amount ≤ u64_max
    → length r.series ≤ r.maximum_series
    → Validated r (validate_increment metric labels amount r) (increment metric labels amount r)
      × Validated r (validate_set_gauge metric labels amount r) (set_gauge metric labels amount r)
      × Validated r (validate_observe metric labels amount r) (observe metric labels amount r)
unfolding increment validate_increment set_gauge validate_set_gauge observe validate_observe
    write_scalar
operations-Validated metric labels amount r fits bound = (
  apply-Validated _ counter (write_scalar amount) r (validate_scalar amount)
      (λ answer. elim answer [ err e ↦ err e | ok found ↦ validate_scalar amount found ])
      (rw (write_scalar, small_sum 0 amount (omega (arith, fits))) (_, refl)) refl
      (write_scalar-validate_scalar amount) (λ e. refl) (λ found. refl) bound,
  apply-Validated _ gauge (λ state. ok (record state { scalar = amount })) r (λ found. ok tt)
      discard (_, refl) refl (λ state. refl) (λ e. refl) (λ found. refl) bound,
  apply-Validated _ histogram (write_bucket amount (bucket_of amount (boundaries metric))) r
      (validate_bucket amount (bucket_of amount (boundaries metric)))
      (λ answer. elim answer [
        | err e ↦ err e
        | ok found ↦ validate_bucket amount (bucket_of amount (boundaries metric)) found
      ])
      (write_bucket_new metric amount (bucket_of amount (boundaries metric)) fits) refl
      (write_bucket-validate_bucket amount (bucket_of amount (boundaries metric))) (λ e. refl)
      (λ found. refl) bound,
)
