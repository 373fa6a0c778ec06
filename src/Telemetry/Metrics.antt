-- ===== src/Telemetry/Metrics.antt =====
-- telemetry/metrics.hpp: the metric identities, and the labels of a metric.
use nexus_lab.Prelude.{ℕ, List}

pub data MetricId : Type 0 where
  simulation_dispatched_events simulation_cancelled_events simulation_final_time_ns : MetricId
  simulation_rng_draws simulation_terminal_total job_completion_time_ns : MetricId
  job_scheduling_wait_ns job_compute_gpu_ns job_communication_ns : MetricId
  job_synchronization_wait_ns job_straggler_delay_ns job_gpu_idle_ns : MetricId
  job_completed_steps job_terminal_total collective_duration_ns : MetricId
  collective_planned_bytes collective_issued_fabric_bytes collective_issued_local_bytes : MetricId
  collective_delivered_bytes link_accepted_bytes link_accepted_chunks : MetricId
  link_serialized_bytes link_serialized_chunks link_marked_bytes link_marked_chunks : MetricId
  link_dropped_buffer_full_bytes link_dropped_buffer_full_chunks : MetricId
  link_dropped_down_bytes link_dropped_down_chunks link_queue_waiting_bytes : MetricId
  link_queue_waiting_chunks link_maximum_waiting_bytes link_serializer_busy_ns : MetricId
  link_utilization_ppm transfer_terminal_total routing_decision_total : MetricId
  placement_decision_total placement_cross_rack_ring_edges placement_rack_count : MetricId
  placement_nic_count failure_state_transition_total failure_affected_jobs : MetricId
  failure_affected_traffic_bytes failure_detection_time_ns failure_recovery_time_ns : MetricId

pub data MetricLabel : Type 0 where
  job collective link direction policy outcome reason failure resource : MetricLabel

pub record MetricLabelValue : Type 0 where
  pub label : MetricLabel
  pub value : ℕ

abbrev pub MetricLabels : Type 0
MetricLabels = List MetricLabelValue
