-- ===== src/Transport/Runtime/Failures.antt =====
-- transport/runtime.cpp and failure.cpp: changes of the state of links, ports and switches, and what
-- they drop.
use nexus_lab.Prelude.{
  ℕ, Bool, false, not, ◌&&◌, Option, none, some, List, [], ◌∷◌, map, get_elem?, ◌==◌, has_value,
}
use nexus_lab.Prelude.Except.{Error, invalid_argument, logic_error, Result, ok}
use nexus_lab.Prelude.State.{M, ◌>>=◌, ◌>>◌, pure, get, when, answer, require}
use nexus_lab.Topology.Entities.{
  DirectedLinkId, PhysicalLink, OperationalState, LinkDirection, a_to_b, b_to_a,
}
use nexus_lab.Topology.Graph.{
  TopologyGraph, is_up, is_valid, find_link, find_port, find_switch, find_dense,
}
use nexus_lab.Topology.Operation.{is_operational, set_link_state, set_port_state, set_switch_state}
use nexus_lab.Telemetry.Records.{chunk_dropped, resource_down, dropped}
use nexus_lab.Sim.Event.{EventPayload, EventSpec, critical}
use nexus_lab.Sim.Env.{Env}
use nexus_lab.Transport.LinkQueue.{TransferChunk, QueueDrain}
use nexus_lab.Transport.LinkService.{reconcile_down}
use nexus_lab.Transport.Runtime.{
  TransportRuntime, ChunkRecord, dropped_link_down, find_entry, find_service, is_fabric,
  require_fabric_arc,
}
use nexus_lab.Transport.Runtime.Reports.{emit_transfer, emit_queue}
use nexus_lab.Transport.Runtime.Progress.{require_chunk, set_chunk, record_terminal}
use nexus_lab.Transport.Runtime.Handlers.{is_admitted, use_service, statistics_now, emit_link}
use nexus_lab.Transport.Runtime.Completion.{crosses, schedule_event}

-- The test of `mark_dropped_link_down`.
abbrev pub drained_as_expected : TransferChunk → DirectedLinkId → ChunkRecord → Bool
drained_as_expected chunk link entry =
    is_admitted entry.state
    && entry.hop_index == chunk.hop_index
    && crosses link (get_elem? entry.route entry.hop_index)

abbrev pub not_as_drained : Error
not_as_drained = logic_error "drained service chunk does not match routed chunk state"

-- The record of a drained chunk.
abbrev pub drained_entry : TransferChunk → ChunkRecord → ChunkRecord
drained_entry chunk entry = record entry { chunk = chunk; state = dropped_link_down }

abbrev pub state_spec : ℕ → EventPayload → EventSpec
state_spec time payload = record { timestamp = time; priority = critical; payload = payload }

abbrev pub is_fabric_link : Option PhysicalLink → Bool
is_fabric_link none = false
is_fabric_link (some physical) = is_fabric physical.kind

abbrev pub link_of_service : {G : Type 0} → DirectedLinkId × G → DirectedLinkId
link_of_service (link, service) = link

module _ {G S : Type 0} where
  abbrev pub validate_state : OperationalState → M (TransportRuntime G S) (Unit {0})
  validate_state state = require (is_valid state) (invalid_argument "invalid operational state")

  abbrev pub in_topology :
      TransportRuntime G S → Bool × TopologyGraph → Result Bool × TransportRuntime G S
  in_topology t (changed, g) = (ok changed, record t { topology = g })

  -- `topology_->set_link_state`, and those of ports and switches
  unfoldable pub change_topology :
      (TopologyGraph → Bool × TopologyGraph) → M (TransportRuntime G S) Bool
  change_topology change t = in_topology t (change t.topology)

module _ {G S : Type 0} (env : Env G S) where
  unfoldable pub schedule_link_state_change : ℕ → OperationalState → ℕ → M (TransportRuntime G S) ℕ
  unfolding find_dense schedule_event
  schedule_link_state_change link state timestamp = do
    t ← get
    require (is_fabric_link (find_link t.topology link))
        (invalid_argument "state change must identify a known fabric link")
    require (is_valid state) (invalid_argument "link operational state is invalid")
    schedule_event env (state_spec timestamp (EventPayload.link_state_change link state))

  unfoldable pub schedule_port_state_change : ℕ → OperationalState → ℕ → M (TransportRuntime G S) ℕ
  unfolding find_dense schedule_event
  schedule_port_state_change port state timestamp = do
    validate_state state
    t ← get
    require (has_value (find_port t.topology port))
        (invalid_argument "unknown port state-change target")
    schedule_event env (state_spec timestamp (EventPayload.port_state_change port state))

  unfoldable pub schedule_switch_state_change :
      ℕ → OperationalState → ℕ → M (TransportRuntime G S) ℕ
  unfolding find_dense schedule_event
  schedule_switch_state_change network_switch state timestamp = do
    validate_state state
    t ← get
    require (has_value (find_switch t.topology network_switch))
        (invalid_argument "unknown switch state-change target")
    schedule_event env
        (state_spec timestamp (EventPayload.switch_state_change network_switch state))

  -- The end of `mark`: the chunk is dropped.
  unfoldable pub drop_drained :
      ℕ → DirectedLinkId → ChunkRecord → M (TransportRuntime G S) (Unit {0})
  unfolding set_chunk emit_queue emit_transfer record_terminal
  drop_drained id link entry = do
    set_chunk id entry
    emit_queue env entry link dropped
    emit_transfer env entry chunk_dropped (some link) resource_down
    record_terminal env entry

  -- `mark`
  unfoldable pub mark : DirectedLinkId → TransferChunk → M (TransportRuntime G S) (Unit {0})
  unfolding require_chunk drop_drained
  mark link chunk = do
    entry ← require_chunk chunk.id
    require (drained_as_expected chunk link entry) not_as_drained
    drop_drained chunk.id link (drained_entry chunk entry)

  unfoldable pub mark_all :
      DirectedLinkId → List TransferChunk → M (TransportRuntime G S) (Unit {0})
  unfolding mark
  mark_all link [] = pure tt
  mark_all link (chunk ∷ chunks) = do mark link chunk; mark_all link chunks

  unfoldable pub mark_active :
      DirectedLinkId → Option TransferChunk → M (TransportRuntime G S) (Unit {0})
  unfolding mark
  mark_active link none = pure tt
  mark_active link (some chunk) = mark link chunk

  unfoldable pub mark_dropped_link_down :
      QueueDrain → DirectedLinkId → M (TransportRuntime G S) (Unit {0})
  unfolding mark_active mark_all
  mark_dropped_link_down drained link = do
    mark_active link drained.active
    mark_all link drained.waiting

  -- The body of the loops over the services, for a link that is down.
  unfoldable pub drain_link : DirectedLinkId → M (TransportRuntime G S) (Unit {0})
  unfolding statistics_now use_service mark_dropped_link_down emit_link
  drain_link link = do
    before ← statistics_now link
    drained ← use_service link (λ v s. reconcile_down env v s)
    after ← statistics_now link
    mark_dropped_link_down drained link
    emit_link env link before after

  -- A direction of the loop of `handle_link_state_change`.
  unfoldable pub drain_direction : ℕ → LinkDirection → M (TransportRuntime G S) (Unit {0})
  unfolding find_entry drain_link
  drain_direction link direction = do
    t ← get
    when (has_value (find_service (record { link = link; direction = direction }) t.services))
        (drain_link (record { link = link; direction = direction }))

  unfoldable pub handle_link_state_change :
      ℕ → OperationalState → M (TransportRuntime G S) (Unit {0})
  unfolding find_dense change_topology set_link_state drain_direction
  handle_link_state_change link state = do
    t ← get
    require (is_fabric_link (find_link t.topology link))
        (invalid_argument "state change must identify a known fabric link")
    require (is_valid state) (invalid_argument "link operational state is invalid")
    changed ← change_topology (set_link_state link state)
    require changed (logic_error "known fabric link state could not be changed")
    when (not (is_up state)) do drain_direction link a_to_b; drain_direction link b_to_a

  -- The body of the loop of `reconcile_unavailable`.
  unfoldable pub reconcile_link : DirectedLinkId → M (TransportRuntime G S) (Unit {0})
  unfolding require_fabric_arc is_operational drain_link
  reconcile_link link = do
    t ← get
    directed ← answer (require_fabric_arc link t.topology)
    when (not (is_operational directed t.topology)) (drain_link link)

  unfoldable pub reconcile_links : List DirectedLinkId → M (TransportRuntime G S) (Unit {0})
  unfolding reconcile_link
  reconcile_links [] = pure tt
  reconcile_links (link ∷ links) = do reconcile_link link; reconcile_links links

  -- The loop writes no key of the map.
  unfoldable pub reconcile_unavailable : M (TransportRuntime G S) (Unit {0})
  unfolding reconcile_links
  reconcile_unavailable = do t ← get; reconcile_links (map link_of_service t.services)

  unfoldable pub handle_port_state_change :
      ℕ → OperationalState → M (TransportRuntime G S) (Unit {0})
  unfolding change_topology set_port_state reconcile_unavailable
  handle_port_state_change port state = do
    validate_state state
    changed ← change_topology (set_port_state port state)
    require changed (invalid_argument "unknown port state-change target")
    reconcile_unavailable

  unfoldable pub handle_switch_state_change :
      ℕ → OperationalState → M (TransportRuntime G S) (Unit {0})
  unfolding change_topology set_switch_state reconcile_unavailable
  handle_switch_state_change network_switch state = do
    validate_state state
    changed ← change_topology (set_switch_state network_switch state)
    require changed (invalid_argument "unknown switch state-change target")
    reconcile_unavailable
