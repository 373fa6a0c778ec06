-- ===== src/Telemetry/Records.antt =====
-- telemetry/records.hpp and records.cpp: what the components report to a telemetry session.
use nexus_lab.Prelude.{ℕ, ◌+◌, Bool, true, false, Option, none, some, List}
use nexus_lab.Prelude.Except.{Text}
use nexus_lab.Topology.Entities.{DirectedLinkId}
use nexus_lab.Telemetry.Metrics.{MetricId, MetricLabels}

pub record Correlation : Type 0 where
  pub gpu : Option ℕ
  pub nic : Option ℕ
  pub switch_entity : Option ℕ
  pub port : Option ℕ
  pub rack : Option ℕ
  pub link : Option DirectedLinkId
  pub event : Option ℕ
  pub cause : Option ℕ
  pub job : Option ℕ
  pub collective : Option ℕ
  pub transfer : Option ℕ
  pub chunk : Option ℕ
  pub routing_decision : Option ℕ
  pub placement_decision : Option ℕ
  pub failure : Option ℕ

-- `Correlation{}`.
unfoldable pub no_correlation : Correlation
no_correlation = record {
  gpu = none;
  nic = none;
  switch_entity = none;
  port = none;
  rack = none;
  link = none;
  event = none;
  cause = none;
  job = none;
  collective = none;
  transfer = none;
  chunk = none;
  routing_decision = none;
  placement_decision = none;
  failure = none;
}

-- `static_cast<std::size_t>(value.has_value())`
abbrev pub present {ℓ} : {A : Type ℓ} → Option A → ℕ
present none = 0
present (some a) = 1

unfoldable pub correlation_edge_count : Correlation → ℕ
correlation_edge_count c =
    present c.gpu
    + present c.nic
    + present c.switch_entity
    + present c.port
    + present c.rack
    + present c.link
    + present c.event
    + present c.cause
    + present c.job
    + present c.collective
    + present c.transfer
    + present c.chunk
    + present c.routing_decision
    + present c.placement_decision
    + present c.failure

pub record MetricObservation : Type 0 where
  pub metric : MetricId
  pub labels : MetricLabels
  pub amount : ℕ

pub data SimulationTransition : Type 0 where
  run_started event_scheduled event_dispatched event_cancelled : SimulationTransition
  stop_requested run_succeeded run_failed run_stopped : SimulationTransition

pub record SimulationObservation : Type 0 where
  pub transition : SimulationTransition
  pub pending_events : ℕ

pub data JobTransition : Type 0 where
  arrived waiting admitted compute_started compute_completed collective_started : JobTransition
  collective_completed step_completed succeeded failed cancelled : JobTransition
  synchronization_started straggler_started : JobTransition

pub record JobObservation : Type 0 where
  pub transition : JobTransition
  pub step : ℕ
  pub bucket : ℕ
  pub worker : ℕ
  pub allocated_workers : ℕ

pub data CollectiveTransition : Type 0 where
  submitted phase_started round_started round_completed transfer_issued : CollectiveTransition
  succeeded failed cancelled : CollectiveTransition

-- collective/model.hpp
pub data Phase : Type 0 where
  reduce_scatter all_gather succeeded failed cancelled : Phase

pub record CollectiveObservation : Type 0 where
  pub transition : CollectiveTransition
  pub phase : Phase
  pub round : ℕ
  pub bytes : ℕ

pub data TransferTransition : Type 0 where
  submitted chunk_queued chunk_service_started chunk_serialized : TransferTransition
  chunk_delivered chunk_dropped succeeded failed : TransferTransition

pub data TransferReason : Type 0 where
  no_reason buffer_full resource_down : TransferReason

pub record TransferObservation : Type 0 where
  pub transition : TransferTransition
  pub bytes : ℕ
  pub hop : ℕ
  pub reason : TransferReason

pub data QueueTransition : Type 0 where
  enqueued service_started service_completed marked dropped : QueueTransition

pub record QueueObservation : Type 0 where
  pub transition : QueueTransition
  pub chunk_bytes : ℕ
  pub waiting_bytes : ℕ
  pub waiting_chunks : ℕ

pub data RoutingDecisionOutcome : Type 0 where
  selected no_route rejected : RoutingDecisionOutcome

pub record RoutingDecisionObservation : Type 0 where
  pub decision : ℕ
  pub policy : Text
  pub policy_version : ℕ
  pub operational_revision : ℕ
  pub candidate_count : ℕ
  pub selected_path : List DirectedLinkId
  pub score : ℕ
  pub reason : Text
  pub transfer : Option ℕ
  pub outcome : RoutingDecisionOutcome

pub data PlacementDecisionOutcome : Type 0 where
  placed waiting rejected : PlacementDecisionOutcome

pub record PlacementDecisionObservation : Type 0 where
  pub decision : ℕ
  pub policy : Text
  pub policy_version : ℕ
  pub priority : ℕ
  pub requested_workers : ℕ
  pub selected_workers : List ℕ
  pub rack_count : ℕ
  pub nic_count : ℕ
  pub cross_rack_ring_edges : ℕ
  pub reason : Text
  pub outcome : PlacementDecisionOutcome

pub data FailureTransition : Type 0 where
  scheduled detected applied recovery_started recovered : FailureTransition

pub data FailureResourceKind : Type 0 where
  link port switch gpu nic : FailureResourceKind

pub record FailureObservation : Type 0 where
  pub failure : ℕ
  pub transition : FailureTransition
  pub resource_kind : FailureResourceKind
  pub resource_id : ℕ
  pub affected_bytes : ℕ

-- `std::variant`; the three metric observations have the same fields.
pub data TelemetryObservation : Type 0 where
  counter gauge histogram : MetricObservation → TelemetryObservation
  simulation : SimulationObservation → TelemetryObservation
  job : JobObservation → TelemetryObservation
  collective : CollectiveObservation → TelemetryObservation
  transfer : TransferObservation → TelemetryObservation
  queue : QueueObservation → TelemetryObservation
  routing_decision : RoutingDecisionObservation → TelemetryObservation
  placement_decision : PlacementDecisionObservation → TelemetryObservation
  failure : FailureObservation → TelemetryObservation

unfoldable pub is_decision_observation : TelemetryObservation → Bool
is_decision_observation (routing_decision o) = true
is_decision_observation (placement_decision o) = true
is_decision_observation _ = false
