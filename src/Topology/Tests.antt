-- ===== src/Topology/Tests.antt =====
-- The topology on concrete inputs: a graph that the code's own operations build.
use nexus_lab.Prelude.{ℕ}
use nexus_lab.Prelude.State.{M, ◌>>=◌}
use nexus_lab.Topology.Entities.{down}
use nexus_lab.Topology.Resources.{nic_node, switch_node, fabric_downlink}
use nexus_lab.Topology.Graph.{
  TopologyGraph, empty_graph, add_rack, add_nic, add_gpu, add_leaf_switch, connect_fabric,
}
use nexus_lab.Topology.Operation.{set_link_state}
use nexus_lab.Topology.Outage.{LinkAnswers, set_link_state_cases}

-- A rack with a GPU at a NIC, and a leaf switch that the NIC is connected to.
abbrev build_rack : M TopologyGraph ℕ
build_rack = do
  rack ← add_rack
  interface ← add_nic rack
  worker ← add_gpu interface
  leaf_switch ← add_leaf_switch rack
  connect_fabric (nic_node interface) fabric_downlink (switch_node leaf_switch) fabric_downlink

abbrev built : TopologyGraph
built = (build_rack empty_graph).1

set_link_state_cases_example : LinkAnswers 1 down built (set_link_state 1 down built)
set_link_state_cases_example = set_link_state_cases 1 down built
