-- ===== src/Telemetry/Registry.antt =====
-- telemetry/metrics.hpp and metrics.cpp: the registry of the metric series. The `std::map` is the
-- list of its entries in the order of their keys.
use Prim.Native.Nat.{bit_and}
use nexus_lab.Prelude.{
  ℕ, zero, suc, ◌+◌, ◌-◌, Bool, true, false, not, ◌&&◌, ◌||◌, Option, none, some, List, [], ◌∷◌,
  ltb, leb, ◌==◌, if◌then◌else◌, length, u64_max,
}
use nexus_lab.Prelude.Except.{invalid_argument, length_error, overflow_error, Result, ok, err}
use nexus_lab.Telemetry.Configuration.{MetricKind, counter, gauge, histogram, derived_summary}
use nexus_lab.Telemetry.Metrics.{MetricId, MetricLabels}
use nexus_lab.Telemetry.Labels.{metric_value, mask, labels_eq, labels_before}
use nexus_lab.Telemetry.Catalog.{
  MetricDefinition, metric_catalog, metric_definition, outside, validate_metric_catalog,
}

pub record MetricSeriesKey : Type 0 where
  pub metric : MetricId
  pub labels : MetricLabels

pub record MetricSeriesState : Type 0 where
  pub kind : MetricKind
  pub scalar : ℕ
  pub histogram_buckets : List ℕ
  pub histogram_count : ℕ
  pub histogram_sum : ℕ

pub record MetricSeriesSnapshot : Type 0 where
  pub key : MetricSeriesKey
  pub state : MetricSeriesState

pub record MetricRegistry : Type 0 where
  pub maximum_series : ℕ
  pub series : List MetricSeriesSnapshot

-- The constructor.
unfoldable pub new_registry : ℕ → ℕ → Result MetricRegistry
new_registry maximum_series maximum_boundaries =
    if maximum_series == 0 || maximum_boundaries == 0
    then err (invalid_argument "telemetry metric catalog limits must be positive")
    else elim (validate_metric_catalog metric_catalog maximum_boundaries) [
      | err e ↦ err e
      | ok valid ↦ ok (record { maximum_series = maximum_series; series = [] })
    ]

abbrev pub kind_eq : MetricKind → MetricKind → Bool
kind_eq counter counter = true
kind_eq gauge gauge = true
kind_eq histogram histogram = true
kind_eq derived_summary derived_summary = true
kind_eq _ _ = false

abbrev pub key_eq : MetricSeriesKey → MetricSeriesKey → Bool
key_eq a b = metric_value a.metric == metric_value b.metric && labels_eq a.labels b.labels

abbrev pub key_before : MetricSeriesKey → MetricSeriesKey → Bool
key_before a b =
    ltb (metric_value a.metric) (metric_value b.metric)
    || metric_value a.metric == metric_value b.metric && labels_before a.labels b.labels

unfoldable pub checked_add : ℕ → ℕ → Result ℕ
checked_add left right =
    if ltb (u64_max - left) right
    then err (overflow_error "telemetry metric value overflow")
    else ok (left + right)

unfoldable pub validate_labels : MetricDefinition → MetricLabels → Result (Unit {0})
validate_labels d labels =
    let supplied = mask labels in
    if not (bit_and supplied d.required_labels == d.required_labels)
    then err (invalid_argument "telemetry metric is missing a required label")
    else if not (outside supplied d.allowed_labels == 0)
    then err (invalid_argument "telemetry metric received an unsupported label")
    else ok tt

-- `series.find(key)`
unfoldable pub find_series : MetricSeriesKey → List MetricSeriesSnapshot → Option MetricSeriesState
find_series key [] = none
find_series key (s ∷ rest) = if key_eq s.key key then some s.state else find_series key rest

-- `series.emplace(key, state)` for a key that is not there.
unfoldable pub emplace :
    MetricSeriesKey → MetricSeriesState → List MetricSeriesSnapshot → List MetricSeriesSnapshot
emplace key state [] = record { key = key; state = state } ∷ []
emplace key state (s ∷ rest) =
    if key_before key s.key
    then record { key = key; state = state } ∷ s ∷ rest
    else s ∷ emplace key state rest

-- A write to the state of a series.
unfoldable pub set_series :
    MetricSeriesKey → MetricSeriesState → List MetricSeriesSnapshot → List MetricSeriesSnapshot
set_series key state [] = []
set_series key state (s ∷ rest) =
    if key_eq s.key key then record s { state = state } ∷ rest else s ∷ set_series key state rest

-- The end of `validate_series`, for the state that the map has for the key.
abbrev pub within_limit :
    MetricRegistry → Option MetricSeriesState → Result (Option MetricSeriesState)
within_limit r (some state) = ok (some state)
within_limit r none =
    if leb r.maximum_series (length r.series)
    then err (length_error "telemetry metric series limit exceeded")
    else ok none

-- `validate_series` behind the look-up of the definition.
unfoldable pub validate_series_of :
    MetricDefinition
    → MetricSeriesKey
    → MetricKind
    → MetricRegistry
    → Result (Option MetricSeriesState)
validate_series_of d key expected r = elim (validate_labels d key.labels) [
  | err e ↦ err e
  | ok valid ↦
      if not (kind_eq d.kind expected)
      then err (invalid_argument "telemetry metric operation does not match metric kind")
      else within_limit r (find_series key r.series)
]

unfoldable pub validate_series :
    MetricSeriesKey → MetricKind → MetricRegistry → Result (Option MetricSeriesState)
validate_series key expected r = elim (metric_definition key.metric) [
  | err e ↦ err e
  | ok d ↦ validate_series_of d key expected r
]

abbrev pub boundaries_of : Result MetricDefinition → List ℕ
boundaries_of (err e) = []
boundaries_of (ok d) = d.histogram_boundaries

-- The boundaries of a metric that `validate_series` has found in the catalogue.
abbrev pub boundaries : MetricId → List ℕ
boundaries metric = boundaries_of (metric_definition metric)

abbrev pub zeros : ℕ → List ℕ
zeros zero = []
zeros (suc n) = 0 ∷ zeros n

-- The buckets of a new series.
abbrev pub new_buckets : MetricId → MetricKind → List ℕ
new_buckets metric histogram = zeros (length (boundaries metric) + 1)
new_buckets metric _ = []

abbrev pub new_state : MetricId → MetricKind → MetricSeriesState
new_state metric expected = record {
  kind = expected;
  scalar = 0;
  histogram_buckets = new_buckets metric expected;
  histogram_count = 0;
  histogram_sum = 0;
}

-- The end of `require_series`, for what `find` answers.
abbrev pub found_or_new :
    MetricSeriesKey
    → MetricKind
    → MetricRegistry
    → Option MetricSeriesState
    → MetricSeriesState × MetricRegistry
found_or_new key expected r (some state) = (state, r)
found_or_new key expected r none = (
  new_state key.metric expected,
  record r { series = emplace key (new_state key.metric expected) r.series },
)

-- The write of an operation to a series, unless the operation throws.
abbrev pub written :
    MetricSeriesKey → Result MetricSeriesState → MetricRegistry → Result (Unit {0}) × MetricRegistry
written key (err e) r = (err e, r)
written key (ok next) r = (ok tt, record r { series = set_series key next r.series })

abbrev pub write_series :
    MetricSeriesKey
    → (MetricSeriesState → Result MetricSeriesState)
    → MetricSeriesState × MetricRegistry
    → Result (Unit {0}) × MetricRegistry
write_series key write (state, r) = written key (write state) r

-- `require_series` and the rest of an operation.
unfoldable pub apply :
    MetricSeriesKey
    → MetricKind
    → (MetricSeriesState → Result MetricSeriesState)
    → MetricRegistry
    → Result (Unit {0}) × MetricRegistry
apply key expected write r = elim (validate_series key expected r) [
  | err e ↦ (err e, r)
  | ok valid ↦ write_series key write (found_or_new key expected r (find_series key r.series))
]

unfoldable pub write_scalar : ℕ → MetricSeriesState → Result MetricSeriesState
write_scalar amount state = elim (checked_add state.scalar amount) [
  | err e ↦ err e
  | ok sum ↦ ok (record state { scalar = sum })
]

unfoldable pub increment :
    MetricId → MetricLabels → ℕ → MetricRegistry → Result (Unit {0}) × MetricRegistry
increment metric labels amount r =
    apply (record { metric = metric; labels = labels }) counter (write_scalar amount) r

unfoldable pub set_gauge :
    MetricId → MetricLabels → ℕ → MetricRegistry → Result (Unit {0}) × MetricRegistry
set_gauge metric labels value r =
    apply (record { metric = metric; labels = labels }) gauge
      (λ state. ok (record state { scalar = value })) r

-- `std::lower_bound` over the boundaries: the number of the bucket of `value`.
abbrev pub bucket_of : ℕ → List ℕ → ℕ
bucket_of value [] = 0
bucket_of value (b ∷ bs) = if ltb b value then suc (bucket_of value bs) else 0

-- `histogram_buckets[bucket]`, which has one more element than there are boundaries.
abbrev pub bucket_at : List ℕ → ℕ → ℕ
bucket_at [] bucket = 0
bucket_at (n ∷ ns) zero = n
bucket_at (n ∷ ns) (suc bucket) = bucket_at ns bucket

abbrev pub set_bucket : ℕ → List ℕ → ℕ → List ℕ
set_bucket value [] bucket = []
set_bucket value (n ∷ ns) zero = value ∷ ns
set_bucket value (n ∷ ns) (suc bucket) = n ∷ set_bucket value ns bucket

-- `observe` for the number of a bucket: all sums are checked before the first write.
unfoldable pub write_bucket : ℕ → ℕ → MetricSeriesState → Result MetricSeriesState
write_bucket value bucket state = elim (checked_add (bucket_at state.histogram_buckets bucket) 1) [
  | err e ↦ err e
  | ok next_bucket ↦ elim (checked_add state.histogram_count 1) [
    | err e ↦ err e
    | ok next_count ↦ elim (checked_add state.histogram_sum value) [
      | err e ↦ err e
      | ok next_sum ↦ ok (record state {
        histogram_buckets = set_bucket next_bucket state.histogram_buckets bucket;
        histogram_count = next_count;
        histogram_sum = next_sum;
      })
    ]
  ]
]

unfoldable pub observe :
    MetricId → MetricLabels → ℕ → MetricRegistry → Result (Unit {0}) × MetricRegistry
observe metric labels value r =
    apply (record { metric = metric; labels = labels }) histogram
      (write_bucket value (bucket_of value (boundaries metric))) r

-- `static_cast<void>(...)` of a checked sum.
abbrev pub discard : {A : Type 0} → Result A → Result (Unit {0})
discard (ok a) = ok tt
discard (err e) = err e

abbrev pub validate_scalar : ℕ → Option MetricSeriesState → Result (Unit {0})
validate_scalar amount none = ok tt
validate_scalar amount (some state) = discard (checked_add state.scalar amount)

unfoldable pub validate_increment : MetricId → MetricLabels → ℕ → MetricRegistry → Result (Unit {0})
validate_increment metric labels amount r =
    elim (validate_series (record { metric = metric; labels = labels }) counter r) [
      | err e ↦ err e
      | ok found ↦ validate_scalar amount found
    ]

unfoldable pub validate_set_gauge : MetricId → MetricLabels → ℕ → MetricRegistry → Result (Unit {0})
validate_set_gauge metric labels value r =
    discard (validate_series (record { metric = metric; labels = labels }) gauge r)

abbrev pub validate_bucket : ℕ → ℕ → Option MetricSeriesState → Result (Unit {0})
validate_bucket value bucket none = ok tt
validate_bucket value bucket (some state) =
    elim (checked_add (bucket_at state.histogram_buckets bucket) 1) [
      | err e ↦ err e
      | ok next_bucket ↦ elim (checked_add state.histogram_count 1) [
        | err e ↦ err e
        | ok next_count ↦ discard (checked_add state.histogram_sum value)
      ]
    ]

unfoldable pub validate_observe : MetricId → MetricLabels → ℕ → MetricRegistry → Result (Unit {0})
validate_observe metric labels value r =
    elim (validate_series (record { metric = metric; labels = labels }) histogram r) [
      | err e ↦ err e
      | ok found ↦ validate_bucket value (bucket_of value (boundaries metric)) found
    ]

abbrev pub snapshot_of : MetricSeriesKey → Option MetricSeriesState → Option MetricSeriesSnapshot
snapshot_of key none = none
snapshot_of key (some state) = some (record { key = key; state = state })

-- `find`
unfoldable pub find_metric :
    MetricId → MetricLabels → MetricRegistry → Result (Option MetricSeriesSnapshot)
find_metric metric labels r = elim (metric_definition metric) [
  | err e ↦ err e
  | ok d ↦
      let key : MetricSeriesKey = record { metric = metric; labels = labels } in
      ok (snapshot_of key (find_series key r.series))
]

-- `snapshots`
unfoldable pub snapshots : MetricRegistry → List MetricSeriesSnapshot
snapshots r = r.series
