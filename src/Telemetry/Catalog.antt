-- ===== src/Telemetry/Catalog.antt =====
-- telemetry/metrics.hpp and metrics.cpp: the metric catalogue and its validation.
use Prim.Native.Nat.{bit_and}
use Prim.Native.String.{String}
use package.text.Mathlib.Text.{◌==◌ as str_eq}
use nexus_lab.Prelude.{
  ℕ, ◌-◌, Bool, true, false, not, ◌&&◌, ◌||◌, Option, none, some, List, [], ◌∷◌, ◌++◌, ltb, leb,
  ◌==◌, if◌then◌else◌, length,
}
use nexus_lab.Prelude.Except.{Text, text, invalid_argument, Result, ok, err}
use nexus_lab.Telemetry.Configuration.{
  MetricKind, counter, gauge, histogram, derived_summary, MetricUnit, count, bytes, chunks,
  nanoseconds, ratio_parts_per_million,
}
use nexus_lab.Telemetry.Labels.{metric_value, label_mask}
use nexus_lab.Telemetry.Metrics.{
  MetricId, simulation_dispatched_events, simulation_cancelled_events, simulation_final_time_ns,
  simulation_rng_draws, simulation_terminal_total, job_completion_time_ns, job_scheduling_wait_ns,
  job_compute_gpu_ns, job_communication_ns, job_synchronization_wait_ns, job_straggler_delay_ns,
  job_gpu_idle_ns, job_completed_steps, job_terminal_total, collective_duration_ns,
  collective_planned_bytes, collective_issued_fabric_bytes, collective_issued_local_bytes,
  collective_delivered_bytes, link_accepted_bytes, link_accepted_chunks, link_serialized_bytes,
  link_serialized_chunks, link_marked_bytes, link_marked_chunks, link_dropped_buffer_full_bytes,
  link_dropped_buffer_full_chunks, link_dropped_down_bytes, link_dropped_down_chunks,
  link_queue_waiting_bytes, link_queue_waiting_chunks, link_maximum_waiting_bytes,
  link_serializer_busy_ns, link_utilization_ppm, transfer_terminal_total, routing_decision_total,
  placement_decision_total, placement_cross_rack_ring_edges, placement_rack_count,
  placement_nic_count, failure_state_transition_total, failure_affected_jobs,
  failure_affected_traffic_bytes, failure_detection_time_ns, failure_recovery_time_ns, failure,
  resource,
}

pub record MetricDefinition : Type 0 where
  pub name : String
  pub description : String
  pub histogram_boundaries : List ℕ
  pub required_labels : ℕ
  pub allowed_labels : ℕ
  pub id : MetricId
  pub kind : MetricKind
  pub unit : MetricUnit

-- The constructor.
abbrev pub definition :
    MetricId → String → String → MetricKind → MetricUnit → ℕ → ℕ → List ℕ → MetricDefinition
definition id name description kind unit required allowed boundaries = record {
  name = name;
  description = description;
  histogram_boundaries = boundaries;
  required_labels = required;
  allowed_labels = allowed;
  id = id;
  kind = kind;
  unit = unit;
}

abbrev pub outcome_label : ℕ
outcome_label = 32

abbrev pub link_labels : ℕ
link_labels = 12

abbrev pub policy_outcome_labels : ℕ
policy_outcome_labels = 48

abbrev pub failure_labels : ℕ
failure_labels = 384

abbrev pub latency_boundaries : List ℕ
latency_boundaries =
    1000 ∷ 10000 ∷ 100000 ∷ 1000000 ∷ 10000000 ∷ 100000000 ∷ 1000000000 ∷ 10000000000 ∷ 60000000000
    ∷ []

abbrev pub count_boundaries : List ℕ
count_boundaries = 0 ∷ 1 ∷ 2 ∷ 4 ∷ 8 ∷ 16 ∷ 32 ∷ 64 ∷ 128 ∷ 256 ∷ 512 ∷ 1024 ∷ 2048 ∷ 8192 ∷ []

unfoldable pub metric_catalog : List MetricDefinition
metric_catalog =
    definition simulation_dispatched_events "simulation_dispatched_events_total"
      "Events dispatched by the simulation kernel" counter count 0 0 []
    ∷ definition simulation_cancelled_events "simulation_cancelled_events_total"
        "Events cancelled by the simulation kernel" counter count 0 0 []
    ∷ definition simulation_final_time_ns "simulation_final_time_ns" "Final simulated timestamp"
        gauge nanoseconds 0 0 []
    ∷ definition simulation_rng_draws "simulation_rng_draws_total"
        "Deterministic random-number draws" counter count 0 0 []
    ∷ definition simulation_terminal_total "simulation_terminal_total"
        "Terminal simulation outcomes" counter count outcome_label outcome_label []
    ∷ definition job_completion_time_ns "job_completion_time_ns" "Terminal job elapsed time"
        histogram nanoseconds 0 0 latency_boundaries
    ∷ definition job_scheduling_wait_ns "job_scheduling_wait_ns"
        "Arrival-to-allocation scheduling wait" histogram nanoseconds 0 0 latency_boundaries
    ∷ definition job_compute_gpu_ns "job_compute_gpu_ns" "Allocated GPU compute resource time"
        counter nanoseconds 0 0 []
    ∷ definition job_communication_ns "job_communication_ns" "Job critical-path communication time"
        counter nanoseconds 0 0 []
    ∷ definition job_synchronization_wait_ns "job_synchronization_wait_ns"
        "Job critical-path synchronization wait" counter nanoseconds 0 0 []
    ∷ definition job_straggler_delay_ns "job_straggler_delay_ns" "Configured worker straggler delay"
        counter nanoseconds 0 0 []
    ∷ definition job_gpu_idle_ns "job_gpu_idle_ns" "Allocated idle GPU resource time" counter
        nanoseconds 0 0 []
    ∷ definition job_completed_steps "job_completed_steps" "Completed training steps" counter count
        0 0 []
    ∷ definition job_terminal_total "job_terminal_total" "Terminal job outcomes" counter count
        outcome_label outcome_label []
    ∷ definition collective_duration_ns "collective_duration_ns" "Terminal collective duration"
        histogram nanoseconds 0 0 latency_boundaries
    ∷ definition collective_planned_bytes "collective_planned_bytes_total"
        "Logical collective bytes planned" counter bytes 0 0 []
    ∷ definition collective_issued_fabric_bytes "collective_issued_fabric_bytes_total"
        "Collective bytes issued to the fabric" counter bytes 0 0 []
    ∷ definition collective_issued_local_bytes "collective_issued_local_bytes_total"
        "Collective bytes issued locally" counter bytes 0 0 []
    ∷ definition collective_delivered_bytes "collective_delivered_bytes_total"
        "Collective bytes delivered" counter bytes 0 0 []
    ∷ definition link_accepted_bytes "link_accepted_bytes_total" "Bytes accepted by a link queue"
        counter bytes link_labels link_labels []
    ∷ definition link_accepted_chunks "link_accepted_chunks_total" "Chunks accepted by a link queue"
        counter chunks link_labels link_labels []
    ∷ definition link_serialized_bytes "link_serialized_bytes_total" "Bytes fully serialized"
        counter bytes link_labels link_labels []
    ∷ definition link_serialized_chunks "link_serialized_chunks_total" "Chunks fully serialized"
        counter chunks link_labels link_labels []
    ∷ definition link_marked_bytes "link_marked_bytes_total" "Bytes congestion marked at a link"
        counter bytes link_labels link_labels []
    ∷ definition link_marked_chunks "link_marked_chunks_total" "Chunks congestion marked at a link"
        counter chunks link_labels link_labels []
    ∷ definition link_dropped_buffer_full_bytes "link_dropped_buffer_full_bytes_total"
        "Bytes dropped because the waiting buffer was full" counter bytes link_labels link_labels []
    ∷ definition link_dropped_buffer_full_chunks "link_dropped_buffer_full_chunks_total"
        "Chunks dropped because the waiting buffer was full" counter chunks link_labels link_labels
        []
    ∷ definition link_dropped_down_bytes "link_dropped_down_bytes_total"
        "Bytes dropped because a resource was down" counter bytes link_labels link_labels []
    ∷ definition link_dropped_down_chunks "link_dropped_down_chunks_total"
        "Chunks dropped because a resource was down" counter chunks link_labels link_labels []
    ∷ definition link_queue_waiting_bytes "link_queue_waiting_bytes" "Current waiting queue bytes"
        gauge bytes link_labels link_labels []
    ∷ definition link_queue_waiting_chunks "link_queue_waiting_chunks"
        "Current waiting queue chunks" gauge chunks link_labels link_labels []
    ∷ definition link_maximum_waiting_bytes "link_maximum_waiting_bytes"
        "Maximum observed waiting queue bytes" gauge bytes link_labels link_labels []
    ∷ definition link_serializer_busy_ns "link_serializer_busy_ns_total"
        "Elapsed link serializer busy time" counter nanoseconds link_labels link_labels []
    ∷ definition link_utilization_ppm "link_utilization_ratio_ppm"
        "Link serializer utilization in parts per million" derived_summary ratio_parts_per_million
        link_labels link_labels []
    ∷ definition transfer_terminal_total "transfer_terminal_total" "Terminal transfer outcomes"
        counter count outcome_label outcome_label []
    ∷ definition routing_decision_total "routing_decision_total" "Routing decisions" counter count
        policy_outcome_labels policy_outcome_labels []
    ∷ definition placement_decision_total "placement_decision_total" "Placement decisions" counter
        count policy_outcome_labels policy_outcome_labels []
    ∷ definition placement_cross_rack_ring_edges "placement_cross_rack_ring_edges"
        "Cross-rack edges in the selected rank ring" histogram count 0 0 count_boundaries
    ∷ definition placement_rack_count "placement_rack_count" "Racks used by a placement" histogram
        count 0 0 count_boundaries
    ∷ definition placement_nic_count "placement_nic_count" "NICs used by a placement" histogram
        count 0 0 count_boundaries
    ∷ definition failure_state_transition_total "failure_state_transition_total"
        "Failure resource-state transitions" counter count failure_labels failure_labels []
    ∷ definition failure_affected_jobs "failure_affected_jobs_total" "Jobs affected by failures"
        counter count (label_mask failure) failure_labels []
    ∷ definition failure_affected_traffic_bytes "failure_affected_traffic_bytes_total"
        "Traffic bytes affected by failures" counter bytes (label_mask failure) failure_labels []
    ∷ definition failure_detection_time_ns "failure_detection_time_ns" "Failure detection latency"
        histogram nanoseconds 0 (label_mask resource) latency_boundaries
    ∷ definition failure_recovery_time_ns "failure_recovery_time_ns" "Failure recovery latency"
        histogram nanoseconds 0 (label_mask resource) latency_boundaries
    ∷ []

abbrev pub find_definition : MetricId → List MetricDefinition → Option MetricDefinition
find_definition id [] = none
find_definition id (d ∷ ds) =
    if metric_value d.id == metric_value id then some d else find_definition id ds

-- `metric_definition`
unfoldable pub metric_definition : MetricId → Result MetricDefinition
unfolding metric_catalog
metric_definition id = elim (find_definition id metric_catalog) [
  | none ↦ err (invalid_argument "unknown telemetry metric identifier")
  | some d ↦ ok d
]

-- The bits of `set` that `within` lacks: `set & ~within`.
abbrev pub outside : ℕ → ℕ → ℕ
outside set within = set - bit_and set within

-- The masks of all labels together.
abbrev pub known_label_mask : ℕ
known_label_mask = 511

-- A lower-case letter, a digit or `_`.
abbrev pub is_name_character : ℕ → Bool
is_name_character c = leb 97 c && leb c 122 || leb 48 c && leb c 57 || c == 95

abbrev pub all_name_characters : Text → Bool
all_name_characters [] = true
all_name_characters (c ∷ cs) = is_name_character c && all_name_characters cs

abbrev pub ends_in_underscore : ℕ → Text → Bool
ends_in_underscore c [] = c == 95
ends_in_underscore c (d ∷ cs) = ends_in_underscore d cs

unfoldable pub valid_external_name : Text → Bool
valid_external_name [] = false
valid_external_name (c ∷ cs) =
    not (c == 95) && not (ends_in_underscore c cs) && all_name_characters (c ∷ cs)

-- `std::is_sorted` and no equal neighbours: every boundary is above the one before.
abbrev pub ascends_from : ℕ → List ℕ → Bool
ascends_from prior [] = true
ascends_from prior (b ∷ bs) = ltb prior b && ascends_from b bs

abbrev pub ascends : List ℕ → Bool
ascends [] = true
ascends (b ∷ bs) = ascends_from b bs

abbrev pub is_histogram : MetricKind → Bool
is_histogram histogram = true
is_histogram _ = false

abbrev pub is_defined : MetricDefinition → List MetricDefinition → Bool
is_defined d [] = false
is_defined d (prior ∷ rest) =
    metric_value prior.id == metric_value d.id || str_eq prior.name d.name || is_defined d rest

abbrev pub bool_eq : Bool → Bool → Bool
bool_eq true b = b
bool_eq false b = not b

-- The body of the loop of `validate_metric_catalog`.
unfoldable pub validate_definition :
    List MetricDefinition → ℕ → MetricDefinition → Result (Unit {0})
validate_definition prior maximum d =
    if not (valid_external_name (text d.name)) || str_eq d.description ""
    then err (invalid_argument "invalid telemetry metric definition text")
    else if not (outside d.required_labels d.allowed_labels == 0)
        || not (outside d.allowed_labels known_label_mask == 0)
    then err (invalid_argument "invalid telemetry metric label mask")
    else if not (bool_eq (is_histogram d.kind) (not (length d.histogram_boundaries == 0)))
    then err (invalid_argument "telemetry histogram boundaries do not match metric kind")
    else if ltb maximum (length d.histogram_boundaries) || not (ascends d.histogram_boundaries)
    then err (invalid_argument "invalid telemetry histogram boundaries")
    else if is_defined d prior
    then err (invalid_argument "duplicate telemetry metric definition")
    else ok tt

unfoldable pub validate_definitions :
    List MetricDefinition → ℕ → List MetricDefinition → Result (Unit {0})
unfolding validate_definition
validate_definitions prior maximum [] = ok tt
validate_definitions prior maximum (d ∷ ds) =
    let rest = validate_definitions (prior ++ d ∷ []) maximum ds in
    elim (validate_definition prior maximum d) [ err e ↦ err e | ok done ↦ rest ]

unfoldable pub validate_metric_catalog : List MetricDefinition → ℕ → Result (Unit {0})
unfolding validate_definitions
validate_metric_catalog [] maximum =
    err (invalid_argument "telemetry metric catalog must be nonempty")
validate_metric_catalog (d ∷ ds) maximum = validate_definitions [] maximum (d ∷ ds)
