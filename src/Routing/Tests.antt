-- ===== src/Routing/Tests.antt =====
-- The routing policies on two paths over a fabric of two links.
use nexus_lab.Prelude.{ℕ, none, [], ◌∷◌}
use nexus_lab.Topology.Entities.{DirectedLinkId, a_to_b}
use nexus_lab.Topology.Resources.{gpu_node}
use nexus_lab.Transport.Statistics.{no_statistics}
use nexus_lab.Transport.LinkQueue.{empty_queue}
use nexus_lab.Transport.LinkService.{DirectedLinkService}
use nexus_lab.Routing.Policy.{RouteRequest, PolicyInput, queue_aware}
use nexus_lab.Routing.Choosing.{ChooseAnswers, choose_cases}

abbrev arc : ℕ → DirectedLinkId
arc link = record { link = link; direction = a_to_b }

abbrev idle : ℕ → ℕ → DirectedLinkService
idle link bandwidth = record {
  queue = empty_queue (record {
    link = arc link;
    bandwidth = bandwidth;
    propagation_delay = 5;
    waiting_buffer_capacity = 100;
    marking_threshold = none;
  });
  scheduled_completion = none;
  statistics = no_statistics;
  busy_since = none;
}

abbrev request : RouteRequest
request = record {
  flow = 9;
  endpoints = record { source = gpu_node 1; destination = gpu_node 2 };
  bytes = 40;
  maximum_chunk_bytes = 16;
}

abbrev input : PolicyInput
input = record {
  request = request;
  seed = 3;
  candidates = (arc 1 ∷ []) ∷ (arc 2 ∷ []) ∷ [];
  fabric = (arc 1, idle 1 1000) ∷ (arc 2, idle 2 8000) ∷ [];
}

choose_cases_example : ChooseAnswers queue_aware input
choose_cases_example = choose_cases queue_aware input
