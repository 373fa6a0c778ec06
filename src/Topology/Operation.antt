-- ===== src/Topology/Operation.antt =====
-- topology/graph.cpp: which parts of a graph are up, and the changes of that.
use nexus_lab.Prelude.{
  ℕ, ◌+◌, Bool, true, false, not, ◌&&◌, ◌||◌, Option, none, some, ◌==◌, if◌then◌else◌, u64_max,
}
use nexus_lab.Topology.Entities.{NodeKind, switch, OperationalState, PhysicalLink, DirectedLink}
use nexus_lab.Topology.Resources.{NodeId, Switch, Port}
use nexus_lab.Topology.Graph.{
  TopologyGraph, is_up, is_valid, state_eq, directed_link_eq, arc_a_to_b, arc_b_to_a, find_dense,
  modify_at, find_switch, find_port, find_link, contains_node,
}

-- A change of state, for the state that a part has; `change` writes the new state.
abbrev pub change_state :
    Option OperationalState
    → OperationalState
    → TopologyGraph
    → TopologyGraph
    → Bool × TopologyGraph
change_state none state g changed = (false, g)
change_state (some old) state g changed =
    if not (is_valid state)
    then (false, g)
    else if state_eq old state
    then (true, g)
    else if g.operational_revision == u64_max
    then (false, g)
    else (true, record changed { operational_revision = g.operational_revision + 1 })

abbrev pub link_state : Option PhysicalLink → Option OperationalState
link_state none = none
link_state (some l) = some l.state

abbrev pub port_state : Option Port → Option OperationalState
port_state none = none
port_state (some p) = some p.state

abbrev pub switch_state : Option Switch → Option OperationalState
switch_state none = none
switch_state (some s) = some s.state

unfoldable pub set_link_state : ℕ → OperationalState → TopologyGraph → Bool × TopologyGraph
unfolding find_dense modify_at
set_link_state id state g =
    change_state (link_state (find_link g id)) state g
      (record g { links = modify_at (λ (l : PhysicalLink). record l { state = state }) g.links id })

unfoldable pub set_port_state : ℕ → OperationalState → TopologyGraph → Bool × TopologyGraph
unfolding find_dense modify_at
set_port_state id state g =
    change_state (port_state (find_port g id)) state g
      (record g { ports = modify_at (λ (p : Port). record p { state = state }) g.ports id })

unfoldable pub set_switch_state : ℕ → OperationalState → TopologyGraph → Bool × TopologyGraph
unfolding find_dense modify_at
set_switch_state id state g =
    change_state (switch_state (find_switch g id)) state g
      (record g { switches = modify_at (λ (s : Switch). record s { state = state }) g.switches id })

abbrev pub switch_is_up : NodeKind → Option Switch → Bool
switch_is_up switch (some s) = is_up s.state
switch_is_up switch none = false
switch_is_up _ o = true

unfoldable pub node_is_operational : NodeId → TopologyGraph → Bool
unfolding contains_node find_dense
node_is_operational node g =
    contains_node node g && switch_is_up node.kind (find_switch g node.value)

-- `is_operational` for the link and the ports that are found.
unfoldable pub arc_is_operational :
    DirectedLink → Option PhysicalLink → Option Port → Option Port → TopologyGraph → Bool
unfolding node_is_operational
arc_is_operational arc (some link) (some source) (some destination) g =
    (directed_link_eq arc (arc_a_to_b link) || directed_link_eq arc (arc_b_to_a link))
    && is_up link.state
    && is_up source.state
    && is_up destination.state
    && node_is_operational source.owner g
    && node_is_operational destination.owner g
arc_is_operational arc _ _ _ g = false

unfoldable pub is_operational : DirectedLink → TopologyGraph → Bool
unfolding find_dense arc_is_operational
is_operational arc g =
    arc_is_operational arc (find_link g arc.id.link) (find_port g arc.source)
      (find_port g arc.destination) g
