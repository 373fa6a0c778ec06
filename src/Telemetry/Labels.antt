-- ===== src/Telemetry/Labels.antt =====
-- telemetry/metrics.hpp and metrics.cpp: the values of the metric identities, and the labels of a
-- metric with their masks and their order.
use Prim.Native.Nat.{bit_or}
use Prim.Native.String.{String}
use text.Mathlib.Text.{◌==◌ as str_eq}
use nexus_lab.Prelude.{
  ℕ, Bool, true, false, ◌&&◌, ◌||◌, List, [], ◌∷◌, ltb, ◌==◌, if◌then◌else◌, length,
}
use nexus_lab.Prelude.Sorting.{sort}
use nexus_lab.Prelude.Except.{invalid_argument, length_error, Result, ok, err}
use nexus_lab.Telemetry.Metrics.{
  MetricId, MetricLabel, MetricLabelValue, MetricLabels, simulation_dispatched_events,
  simulation_cancelled_events, simulation_final_time_ns, simulation_rng_draws,
  simulation_terminal_total, job_completion_time_ns, job_scheduling_wait_ns, job_compute_gpu_ns,
  job_communication_ns, job_synchronization_wait_ns, job_straggler_delay_ns, job_gpu_idle_ns,
  job_completed_steps, job_terminal_total, collective_duration_ns, collective_planned_bytes,
  collective_issued_fabric_bytes, collective_issued_local_bytes, collective_delivered_bytes,
  link_accepted_bytes, link_accepted_chunks, link_serialized_bytes, link_serialized_chunks,
  link_marked_bytes, link_marked_chunks, link_dropped_buffer_full_bytes,
  link_dropped_buffer_full_chunks, link_dropped_down_bytes, link_dropped_down_chunks,
  link_queue_waiting_bytes, link_queue_waiting_chunks, link_maximum_waiting_bytes,
  link_serializer_busy_ns, link_utilization_ppm, transfer_terminal_total, routing_decision_total,
  placement_decision_total, placement_cross_rack_ring_edges, placement_rack_count,
  placement_nic_count, failure_state_transition_total, failure_affected_jobs,
  failure_affected_traffic_bytes, failure_detection_time_ns, failure_recovery_time_ns, job,
  collective, link, direction, policy, outcome, reason, failure, resource,
}

-- The enumerator's value.
abbrev pub metric_value : MetricId → ℕ
metric_value simulation_dispatched_events = 1
metric_value simulation_cancelled_events = 2
metric_value simulation_final_time_ns = 3
metric_value simulation_rng_draws = 4
metric_value simulation_terminal_total = 5
metric_value job_completion_time_ns = 10
metric_value job_scheduling_wait_ns = 11
metric_value job_compute_gpu_ns = 12
metric_value job_communication_ns = 13
metric_value job_synchronization_wait_ns = 14
metric_value job_straggler_delay_ns = 15
metric_value job_gpu_idle_ns = 16
metric_value job_completed_steps = 17
metric_value job_terminal_total = 18
metric_value collective_duration_ns = 30
metric_value collective_planned_bytes = 31
metric_value collective_issued_fabric_bytes = 32
metric_value collective_issued_local_bytes = 33
metric_value collective_delivered_bytes = 34
metric_value link_accepted_bytes = 50
metric_value link_accepted_chunks = 51
metric_value link_serialized_bytes = 52
metric_value link_serialized_chunks = 53
metric_value link_marked_bytes = 54
metric_value link_marked_chunks = 55
metric_value link_dropped_buffer_full_bytes = 56
metric_value link_dropped_buffer_full_chunks = 57
metric_value link_dropped_down_bytes = 58
metric_value link_dropped_down_chunks = 59
metric_value link_queue_waiting_bytes = 60
metric_value link_queue_waiting_chunks = 61
metric_value link_maximum_waiting_bytes = 62
metric_value link_serializer_busy_ns = 63
metric_value link_utilization_ppm = 64
metric_value transfer_terminal_total = 70
metric_value routing_decision_total = 80
metric_value placement_decision_total = 81
metric_value placement_cross_rack_ring_edges = 82
metric_value placement_rack_count = 83
metric_value placement_nic_count = 84
metric_value failure_state_transition_total = 100
metric_value failure_affected_jobs = 101
metric_value failure_affected_traffic_bytes = 102
metric_value failure_detection_time_ns = 103
metric_value failure_recovery_time_ns = 104

abbrev pub label_value : MetricLabel → ℕ
label_value job = 1
label_value collective = 2
label_value link = 3
label_value direction = 4
label_value policy = 5
label_value outcome = 6
label_value reason = 7
label_value failure = 8
label_value resource = 9

abbrev pub label_mask : MetricLabel → ℕ
label_mask job = 1
label_mask collective = 2
label_mask link = 4
label_mask direction = 8
label_mask policy = 16
label_mask outcome = 32
label_mask reason = 64
label_mask failure = 128
label_mask resource = 256

-- `MetricLabels::mask`
unfoldable pub mask : MetricLabels → ℕ
mask [] = 0
mask (v ∷ vs) = bit_or (label_mask v.label) (mask vs)

-- `operator<=>` of a label with its value.
abbrev pub label_before : MetricLabelValue → MetricLabelValue → Bool
label_before a b =
    ltb (label_value a.label) (label_value b.label)
    || label_value a.label == label_value b.label && ltb a.value b.value

abbrev pub label_eq : MetricLabelValue → MetricLabelValue → Bool
label_eq a b = label_value a.label == label_value b.label && a.value == b.value

-- `operator==` and `operator<=>` of the labels of two metrics.
abbrev pub labels_eq : MetricLabels → MetricLabels → Bool
labels_eq [] [] = true
labels_eq (a ∷ rest) (b ∷ bs) = label_eq a b && labels_eq rest bs
labels_eq _ _ = false

abbrev pub labels_before : MetricLabels → MetricLabels → Bool
labels_before [] [] = false
labels_before [] (b ∷ bs) = true
labels_before (a ∷ rest) [] = false
labels_before (a ∷ rest) (b ∷ bs) = label_before a b || label_eq a b && labels_before rest bs

-- `std::adjacent_find` for two neighbours of the same label.
abbrev pub repeats_after : ℕ → MetricLabels → Bool
repeats_after prior [] = false
repeats_after prior (v ∷ vs) =
    prior == label_value v.label || repeats_after (label_value v.label) vs

abbrev pub repeats : MetricLabels → Bool
repeats [] = false
repeats (v ∷ vs) = repeats_after (label_value v.label) vs

-- The constructor. The enumerators all have a mask, so that none is unknown.
unfoldable pub new_labels : List MetricLabelValue → Result MetricLabels
new_labels values =
    if ltb 4 (length values)
    then err (length_error "telemetry metric label limit exceeded")
    else if repeats (sort label_before values)
    then err (invalid_argument "duplicate telemetry metric label")
    else ok (sort label_before values)

-- `policy_label_value`
unfoldable pub policy_label_value : String → ℕ
policy_label_value name =
    if str_eq name "ecmp"
    then 1
    else if str_eq name "shortest-path"
    then 2
    else if str_eq name "least-loaded"
    then 3
    else if str_eq name "queue-aware"
    then 4
    else if str_eq name "first-fit"
    then 10
    else if str_eq name "random"
    then 11
    else if str_eq name "rack-local"
    then 12
    else if str_eq name "compact"
    then 13
    else 1000
