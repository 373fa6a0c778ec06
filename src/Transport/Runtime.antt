-- ===== src/Transport/Runtime.antt =====
-- transport/runtime.hpp, and of runtime.cpp and progress.cpp the constructor and the tests before a
-- transfer: routed chunks that cross the links of a topology. A `std::map` is an association list.
pub mod Reports
pub mod Progress
pub mod Handlers
pub mod Completion
pub mod Failures
pub mod Submission
pub mod Splitting
pub mod Snapshot
pub mod Keeping
pub mod Moving
pub mod Rules
pub mod Steps
pub mod Dropping
pub mod Counting
pub mod Completing
pub mod Capacity
mod Tests
use nexus_lab.Prelude.{
  ℕ, ◌+◌, ◌-◌, ◌/◌, ◌%◌, Bool, true, false, not, ◌&&◌, ◌||◌, Option, none, some, List, [], ◌∷◌,
  length, ltb, ◌==◌, if◌then◌else◌, has_value, u64_max, u64_mod,
}
use nexus_lab.Prelude.Except.{
  Error, invalid_argument, overflow_error, length_error, Result, ok, err,
}
use nexus_lab.Prelude.State.{M, ◌>>=◌, ◌>>◌, and_then, pure, throw, modify, answer, require}
use nexus_lab.Topology.Entities.{
  DirectedLinkId, DirectedLink, PhysicalLink, LinkKind, local_attachment, fabric, LinkDirection,
  a_to_b, b_to_a,
}
use nexus_lab.Topology.Resources.{NodeId, Port}
use nexus_lab.Topology.Graph.{
  TopologyGraph, directed_link, link_id_eq, node_eq, find_link, find_port, find_dense,
}
use nexus_lab.Sim.Time.{checked_add}
use nexus_lab.Sim.Simulation.{Simulation}
use nexus_lab.Transport.Ids.{IdGenerator}
use nexus_lab.Transport.Statistics.{TrafficCount, no_traffic}
use nexus_lab.Transport.Timing.{serialization_delay}
use nexus_lab.Transport.LinkQueue.{DirectedLinkConfiguration, TransferChunk}
use nexus_lab.Transport.LinkService.{DirectedLinkService, new_service}

pub data ChunkTransitState : Type 0 where
  registered awaiting_arrival admitted delivered dropped_buffer_full dropped_link_down :
      ChunkTransitState

pub data TransferOutcome : Type 0 where
  pending succeeded failed : TransferOutcome

pub record TransferCompletion : Type 0 where
  pub transfer : ℕ
  pub outcome : TransferOutcome
  pub timestamp : ℕ
  pub delivered : TrafficCount
  pub dropped_buffer_full : TrafficCount
  pub dropped_link_down : TrafficCount

pub record TransportLimits : Type 0 where
  pub maximum_chunks : ℕ
  pub maximum_route_entries : ℕ
  pub maximum_route_hops : ℕ

pub record ChunkRecord : Type 0 where
  pub chunk : TransferChunk
  pub route : List DirectedLinkId
  pub state : ChunkTransitState
  pub hop_index : ℕ
  pub scheduled_arrival : Option ℕ

pub record TransferRecord : Type 0 where
  pub chunks : List ℕ
  pub total : TrafficCount
  pub delivered : TrafficCount
  pub dropped_buffer_full : TrafficCount
  pub dropped_link_down : TrafficCount
  pub started_at : Option ℕ
  pub completion : Option TransferCompletion

-- `TransferRecord{}`
abbrev pub no_transfer : TransferRecord
no_transfer = record {
  chunks = [];
  total = no_traffic;
  delivered = no_traffic;
  dropped_buffer_full = no_traffic;
  dropped_link_down = no_traffic;
  started_at = none;
  completion = none;
}

-- The class, with what its methods reach by reference: the topology, and the simulation behind the
-- context of a handler. The telemetry sink is the one of that simulation, or none.
pub record TransportRuntime (G S : Type 0) : Type 0 where
  pub topology : TopologyGraph
  pub simulation : Simulation G S
  pub limits : TransportLimits
  pub has_sink : Bool
  pub route_entries : ℕ
  pub transfers : List (ℕ × TransferRecord)
  pub completions : List TransferCompletion
  pub transfer_ids : IdGenerator
  pub chunk_ids : IdGenerator
  pub services : List (DirectedLinkId × DirectedLinkService)
  pub reported_busy_time_ns : List (DirectedLinkId × ℕ)
  pub chunks : List (ℕ × ChunkRecord)

module _ {K V : Type 0} (eq : K → K → Bool) where
  -- `find` of a map
  unfoldable pub find_entry : K → List (K × V) → Option V
  find_entry key [] = none
  find_entry key ((other, value) ∷ rest) = if eq other key then some value else find_entry key rest

  -- A write through the reference that `find` gave.
  unfoldable pub set_entry : K → V → List (K × V) → List (K × V)
  set_entry key value [] = []
  set_entry key value ((other, old) ∷ rest) =
      if eq other key then (other, value) ∷ rest else (other, old) ∷ set_entry key value rest

abbrev pub find_chunk : ℕ → List (ℕ × ChunkRecord) → Option ChunkRecord
find_chunk id chunks = find_entry (λ (a b : ℕ). a == b) id chunks

abbrev pub find_transfer : ℕ → List (ℕ × TransferRecord) → Option TransferRecord
find_transfer id transfers = find_entry (λ (a b : ℕ). a == b) id transfers

-- `find_service`
abbrev pub find_service :
    DirectedLinkId → List (DirectedLinkId × DirectedLinkService) → Option DirectedLinkService
find_service link services = find_entry link_id_eq link services

abbrev pub is_fabric : LinkKind → Bool
is_fabric fabric = true
is_fabric local_attachment = false

abbrev pub unknown_arc : Error
unknown_arc = invalid_argument "transport link must identify a known fabric arc"

-- `require_fabric_arc` for the link that is found.
abbrev pub fabric_arc : LinkDirection → Option PhysicalLink → Result DirectedLink
fabric_arc direction none = err unknown_arc
fabric_arc direction (some physical) =
    if is_fabric physical.kind then ok (directed_link physical direction) else err unknown_arc

unfoldable pub require_fabric_arc : DirectedLinkId → TopologyGraph → Result DirectedLink
unfolding find_dense
require_fabric_arc link g = fabric_arc link.direction (find_link g link.link)

abbrev pub direction_before : LinkDirection → LinkDirection → Bool
direction_before a_to_b b_to_a = true
direction_before _ _ = false

-- The order of the `std::map` of the links.
abbrev pub link_id_before : DirectedLinkId → DirectedLinkId → Bool
link_id_before a b =
    ltb a.link b.link || (a.link == b.link && direction_before a.direction b.direction)

-- `try_emplace` of a key that is not there.
unfoldable pub emplace_link :
    {V : Type 0} → DirectedLinkId → V → List (DirectedLinkId × V) → List (DirectedLinkId × V)
emplace_link link value [] = (link, value) ∷ []
emplace_link link value ((other, old) ∷ rest) =
    if link_id_before link other
    then (link, value) ∷ (other, old) ∷ rest
    else (other, old) ∷ emplace_link link value rest

-- A link of the loop of `validate_timing`: when its propagation ends.
abbrev pub hop_end : ℕ → DirectedLinkConfiguration → ℕ → Result ℕ
hop_end bytes config now = elim (serialization_delay bytes config.bandwidth) [
  | none ↦ err (overflow_error "serialization delay exceeds simulated-time range")
  | some delay ↦ elim (checked_add now delay) [
    | none ↦ err (overflow_error "route timing exceeds simulated-time range")
    | some serialized ↦ elim (checked_add serialized config.propagation_delay) [
      | none ↦ err (overflow_error "route timing exceeds simulated-time range")
      | some propagated ↦ ok propagated
    ]
  ]
]

-- Whether two ports are found and have the same owner.
abbrev pub same_owner : Option Port → Option Port → Bool
same_owner (some a) (some b) = node_eq a.owner b.owner
same_owner _ _ = false

-- Whether a port is owned by the node that is expected, if one is.
abbrev pub owned_as_expected : Option NodeId → Option Port → Bool
owned_as_expected none port = true
owned_as_expected (some expected) none = false
owned_as_expected (some expected) (some p) = node_eq p.owner expected

module _ {G S : Type 0} where
  unfoldable pub validate_capacity : ℕ → ℕ → TransportRuntime G S → Result (Unit {0})
  validate_capacity count hops t =
      if ltb t.limits.maximum_route_hops hops
        || ltb ((t.limits.maximum_chunks + u64_mod - length t.chunks) % u64_mod) count
        || (not (hops == 0)
            && ltb ((t.limits.maximum_route_entries + u64_mod - t.route_entries) % u64_mod / hops)
                count)
      then err (length_error "transport retained-state limit exceeded")
      else ok tt

  unfoldable pub validate_timing :
      ℕ → List DirectedLinkId → ℕ → TransportRuntime G S → Result (Unit {0})
  unfolding find_entry
  validate_timing bytes [] now t = ok tt
  validate_timing bytes (link ∷ route) now t = elim (find_service link t.services) [
    | none ↦ err (invalid_argument "route uses an unconfigured link")
    | some service ↦ elim (hop_end bytes service.queue.configuration now) [
      | err e ↦ err e
      | ok later ↦ validate_timing bytes route later t
    ]
  ]

  -- `require_fabric_arc` and the test for a service.
  unfoldable pub configured_arc : DirectedLinkId → TransportRuntime G S → Result DirectedLink
  unfolding require_fabric_arc find_entry
  configured_arc link t = elim (require_fabric_arc link t.topology) [
    | err e ↦ err e
    | ok arc ↦
        if has_value (find_service link t.services)
        then ok arc
        else err (invalid_argument "routed chunk path uses an unconfigured directed link")
  ]

  -- The loop of `validate_route`; it answers the last arc.
  unfoldable pub contiguous :
      DirectedLink → List DirectedLinkId → TransportRuntime G S → Result DirectedLink
  unfolding configured_arc find_dense
  contiguous previous [] t = ok previous
  contiguous previous (link ∷ route) t = elim (configured_arc link t) [
    | err e ↦ err e
    | ok arc ↦
        let rest = contiguous arc route t in
        if same_owner (find_port t.topology previous.destination) (find_port t.topology arc.source)
        then rest
        else err (invalid_argument "routed chunk path is not contiguous")
  ]

  -- The end of `validate_route`.
  unfoldable pub validate_ends :
      DirectedLink
      → DirectedLink
      → Option NodeId
      → Option NodeId
      → TransportRuntime G S
      → Result (Unit {0})
  unfolding find_dense
  validate_ends first last source destination t =
      if not (owned_as_expected source (find_port t.topology first.source))
      then err (invalid_argument "routed transfer source does not match path")
      else if not (owned_as_expected destination (find_port t.topology last.destination))
      then err (invalid_argument "routed transfer destination does not match path")
      else ok tt

  -- `validate_route` behind its test of the capacity.
  unfoldable pub validate_path :
      List DirectedLinkId → Option NodeId → Option NodeId → TransportRuntime G S → Result (Unit {0})
  unfolding contiguous validate_ends
  validate_path [] source destination t =
      err (invalid_argument "routed chunk path must be nonempty")
  validate_path (link ∷ route) source destination t =
      if ltb 4294967295 (length (link ∷ route))
      then err (overflow_error "routed chunk path exceeds hop-index range")
      else elim (configured_arc link t) [
        | err e ↦ err e
        | ok first ↦ elim (contiguous first route t) [
          | err e ↦ err e
          | ok last ↦ validate_ends first last source destination t
        ]
      ]

  unfoldable pub validate_route :
      List DirectedLinkId → Option NodeId → Option NodeId → TransportRuntime G S → Result (Unit {0})
  unfolding validate_capacity validate_path
  validate_route route source destination t = elim (validate_capacity 0 (length route) t) [
    | err e ↦ err e
    | ok fits ↦ validate_path route source destination t
  ]

  -- The loop of the constructor.
  unfoldable pub emplace_services :
      List DirectedLinkConfiguration → M (TransportRuntime G S) (Unit {0})
  unfolding require_fabric_arc find_entry emplace_link
  emplace_services [] t = (ok tt, t)
  emplace_services (c ∷ configurations) t = elim (require_fabric_arc c.link t.topology) [
    | err e ↦ (err e, t)
    | ok arc ↦
        if has_value (find_service c.link t.services)
        then (err (invalid_argument "duplicate directed-link transport configuration"), t)
        else elim (new_service c) [
          | err e ↦ (err e, t)
          | ok service ↦ emplace_services configurations (record t {
            services = emplace_link c.link service t.services;
            reported_busy_time_ns = emplace_link c.link 0 t.reported_busy_time_ns;
          })
        ]
  ]
