-- ===== src/Transport/Runtime/Tests.antt =====
-- A runtime on concrete inputs: a rack whose NIC sends over one link to a leaf switch.
use nexus_lab.Prelude.{ℕ, ◌+◌, [], ◌∷◌, true, false, none, some, refl, arith}
use nexus_lab.Prelude.Except.{ok}
use nexus_lab.Prelude.State.{M, ◌>>=◌}
use nexus_lab.Topology.Entities.{DirectedLinkId, a_to_b}
use nexus_lab.Topology.Resources.{nic_node, switch_node, fabric_downlink}
use nexus_lab.Topology.Graph.{
  TopologyGraph, empty_graph, add_rack, add_nic, add_leaf_switch, connect_fabric,
}
use nexus_lab.Sim.Env.{Env}
use nexus_lab.Sim.Simulation.{Simulation, new}
use nexus_lab.Sim.Trace.{enabled}
use nexus_lab.Transport.LinkQueue.{DirectedLinkConfiguration, TransferChunk}
use nexus_lab.Transport.Runtime.{
  TransportRuntime, TransportLimits, ChunkRecord, delivered, no_transfer,
}
use nexus_lab.Transport.Runtime.Submission.{
  RoutedChunk, TransferRequest, bare_runtime, new_runtime, register_chunk, submit_transfer,
}
use nexus_lab.Transport.Runtime.Dropping.{HandlersMove, handlers-Moved}
use nexus_lab.Transport.Runtime.Splitting.{SubmitAnswers, submit_transfer-SubmitAnswers}
use nexus_lab.Transport.Runtime.Capacity.{WithinLimits, register_chunk-WithinLimits}

abbrev build : M TopologyGraph ℕ
build = do
  rack ← add_rack
  interface ← add_nic rack
  leaf_switch ← add_leaf_switch rack
  connect_fabric (nic_node interface) fabric_downlink (switch_node leaf_switch) fabric_downlink

abbrev counting : Env ℕ ℕ
counting = record {
  seeded = λ seed. seed;
  draw = λ g. (g, g + 1);
  enabled = λ n. true;
  record_observation = λ time correlation observation n. (ok tt, n + 1);
}

abbrev simulation : Simulation ℕ ℕ
simulation = new counting 7 enabled 0

abbrev uplink : DirectedLinkId
uplink = record { link = 0; direction = a_to_b }

abbrev configuration : DirectedLinkConfiguration
configuration = record {
  link = uplink;
  bandwidth = 1000;
  propagation_delay = 5;
  waiting_buffer_capacity = 100;
  marking_threshold = some 50;
}

abbrev limits : TransportLimits
limits = record { maximum_chunks = 4; maximum_route_entries = 8; maximum_route_hops = 2 }

abbrev ready : TransportRuntime ℕ ℕ
ready =
    (new_runtime (configuration ∷ []) (bare_runtime (build empty_graph).1 limits true simulation)).1

-- 50 bytes in chunks of 30 at most.
abbrev two_chunks : TransferRequest
two_chunks = record {
  source = nic_node 0;
  destination = switch_node 0;
  bytes = 50;
  maximum_chunk_bytes = 30;
  route = uplink ∷ [];
}

abbrev sending : TransportRuntime ℕ ℕ
sending = (submit_transfer counting two_chunks ready).1

handlers-Moved_example : HandlersMove counting sending
handlers-Moved_example = handlers-Moved counting sending

abbrev chunk : ℕ → TransferChunk
chunk id = record { transfer = 1; id = id; bytes = 30; hop_index = 0; marked = false }

abbrev arrived : ChunkRecord
arrived = record {
  chunk = chunk 7;
  route = uplink ∷ [];
  state = delivered;
  hop_index = 1;
  scheduled_arrival = none;
}

-- A transfer whose only chunk has arrived and is not counted yet.
abbrev last_chunk : TransportRuntime ℕ ℕ
last_chunk = record (bare_runtime (build empty_graph).1 limits true simulation) {
  route_entries = 1;
  chunks = (7, arrived) ∷ [];
  transfers =
      (
        1,
        record no_transfer {
          chunks = 7 ∷ [];
          total = record { bytes = 30; chunks = 1 };
          started_at = some 0;
        },
      )
      ∷ [];
}

last_chunk-WithinLimits : WithinLimits last_chunk
last_chunk-WithinLimits = record {
  chunk_limit = omega arith;
  entry_limit = omega arith;
  count = omega arith;
  counted = refl;
  entries = omega arith;
  short = (omega arith, tt);
}

abbrev routed : RoutedChunk
routed = record { chunk = chunk 9; route = uplink ∷ [] }

register_chunk-WithinLimits_example : WithinLimits (register_chunk routed last_chunk).1
register_chunk-WithinLimits_example =
    register_chunk-WithinLimits routed last_chunk last_chunk-WithinLimits

submit_transfer-SubmitAnswers_example :
    SubmitAnswers two_chunks (submit_transfer counting two_chunks ready).0
submit_transfer-SubmitAnswers_example = submit_transfer-SubmitAnswers counting two_chunks ready
