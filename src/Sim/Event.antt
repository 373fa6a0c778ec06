-- ===== src/Sim/Event.antt =====
-- sim/event.hpp, with the payloads of transport/events.hpp, workload/events.hpp and
-- collective/model.hpp; and `payload_kind` of sim/trace.cpp.
use nexus_lab.Prelude.{ℕ, Option}
use nexus_lab.Topology.Entities.{OperationalState, LinkDirection}
use nexus_lab.Telemetry.Records.{Phase}

pub data EventPriority : Type 0 where
  critical control normal background : EventPriority

-- The enumerator's value.
abbrev pub priority_value : EventPriority → ℕ
priority_value critical = 0
priority_value control = 64
priority_value normal = 128
priority_value background = 192

pub data WorkloadEventKind : Type 0 where
  arrival compute_ready cancel worker_failure gpu_down gpu_up : WorkloadEventKind

pub record ChunkArrivalEvent : Type 0 where
  pub chunk : ℕ
  pub hop_index : ℕ

pub record TransmissionCompleteEvent : Type 0 where
  pub link : ℕ
  pub chunk : ℕ
  pub hop_index : ℕ
  pub direction : LinkDirection

pub record WorkloadEvent : Type 0 where
  pub job : ℕ
  pub kind : WorkloadEventKind
  pub worker : ℕ
  pub step : ℕ
  pub bucket : ℕ

pub record LocalCompletionEvent : Type 0 where
  pub collective : ℕ
  pub round : ℕ
  pub rank : ℕ
  pub phase : Phase

-- `std::variant`
pub data EventPayload : Type 0 where
  no_op : ℕ → EventPayload
  chunk_arrival : ChunkArrivalEvent → EventPayload
  transmission_complete : TransmissionCompleteEvent → EventPayload
  -- the link, port or switch, and its new state
  link_state_change port_state_change switch_state_change : ℕ → OperationalState → EventPayload
  workload : WorkloadEvent → EventPayload
  local_completion : LocalCompletionEvent → EventPayload

pub record EventSpec : Type 0 where
  pub timestamp : ℕ
  pub priority : EventPriority
  pub payload : EventPayload

pub record Event : Type 0 where
  pub timestamp : ℕ
  pub priority : EventPriority
  pub id : ℕ
  pub cause : Option ℕ
  pub payload : EventPayload

pub data EventPayloadKind : Type 0 where
  no_op chunk_arrival transmission_complete link_state_change : EventPayloadKind
  port_state_change switch_state_change workload : EventPayloadKind
  local_collective_completion : EventPayloadKind

unfoldable pub payload_kind : EventPayload → EventPayloadKind
payload_kind (EventPayload.no_op token) = no_op
payload_kind (EventPayload.chunk_arrival e) = chunk_arrival
payload_kind (EventPayload.transmission_complete e) = transmission_complete
payload_kind (EventPayload.link_state_change link state) = link_state_change
payload_kind (EventPayload.port_state_change port state) = port_state_change
payload_kind (EventPayload.switch_state_change network_switch state) = switch_state_change
payload_kind (EventPayload.workload e) = workload
payload_kind (EventPayload.local_completion e) = local_collective_completion
