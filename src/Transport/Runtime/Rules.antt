-- ===== src/Transport/Runtime/Rules.antt =====
-- What each handler of transport/runtime.cpp and failure.cpp may do to the state of a chunk.
use nexus_lab.Prelude.{
  ℕ, ◌≡◌, ◌≢◌, ◌⊎◌, sym, ◌∙◌, inl, inr, true, false, some, List, length, get_elem?,
}
use nexus_lab.Prelude.Except.{ok}
use nexus_lab.Topology.Entities.{DirectedLinkId, DirectedLink}
use nexus_lab.Topology.Graph.{TopologyGraph}
use nexus_lab.Topology.Operation.{is_operational}
use nexus_lab.Sim.Event.{ChunkArrivalEvent, TransmissionCompleteEvent}
use nexus_lab.Transport.Runtime.{
  ChunkTransitState, awaiting_arrival, admitted, delivered, dropped_buffer_full, dropped_link_down,
  require_fabric_arc,
}
use nexus_lab.Transport.Runtime.Moving.{Rule}

-- Where an awaited chunk goes: at the end of its route it is delivered; at a link that works it is
-- admitted or finds no room; at a link that does not it is dropped.
abbrev pub ArrivesIn :
    ChunkArrivalEvent → TopologyGraph → List DirectedLinkId → ChunkTransitState → Type 0
ArrivesIn e g route new =
    ((e.hop_index ≡ length route) × (new ≡ delivered))
    ⊎ ((link : DirectedLinkId) × (directed : DirectedLink) × (get_elem? route e.hop_index
          ≡ some link)
        × (require_fabric_arc link g ≡ ok directed)
        × (((is_operational directed g ≡ true) × ((new ≡ admitted) ⊎ (new ≡ dropped_buffer_full)))
            ⊎ ((is_operational directed g ≡ false) × (new ≡ dropped_link_down))))

-- No chunk goes on awaiting its arrival.
pub no_waiting :
    (e : ChunkArrivalEvent) (g : TopologyGraph) (route : List DirectedLinkId)
    (t : ChunkTransitState)
    → ArrivesIn e g route t
    → t ≢ awaiting_arrival
no_waiting e g route t (inl (there, s)) w = cc
no_waiting e g route t (inr (link, directed, at, arc, inl (up, inl s))) w = cc
no_waiting e g route t (inr (link, directed, at, arc, inl (up, inr s))) w = cc
no_waiting e g route t (inr (link, directed, at, arc, inr (down, s))) w = cc

pub never_both : {s t u : ChunkTransitState} → s ≢ u → t ≡ s → t ≢ u
never_both differ p q = differ (sym p ∙ q)

pub waiting_apart : awaiting_arrival ≢ admitted
waiting_apart e = cc

pub dropped_apart : dropped_link_down ≢ admitted
dropped_apart e = cc

-- The arrival of a chunk, at a graph `g`.
abbrev pub arrival_rule : ChunkArrivalEvent → TopologyGraph → Rule
arrival_rule e g = record {
  Allows = λ id route old new. (id ≡ e.chunk) × (old ≡ awaiting_arrival) × ArrivesIn e g route new;
  compose = λ id route s t u p q. absurd (no_waiting e g route t p.2 q.1);
}

-- The end of the service of a chunk.
abbrev pub completion_rule : TransmissionCompleteEvent → Rule
completion_rule e = record {
  Allows = λ id route old new. (id ≡ e.chunk) × (old ≡ admitted) × (new ≡ awaiting_arrival);
  compose = λ id route s t u p q. absurd (never_both waiting_apart p.2 q.1);
}

-- A failure drops chunks that wait at, or are served by, a link of which `Fails` holds.
abbrev pub failure_rule : (DirectedLinkId → Type 0) → Rule
failure_rule Fails = record {
  Allows = λ id route old new.
      (old ≡ admitted)
      × (new ≡ dropped_link_down)
      × ((hop : ℕ) × (link : DirectedLinkId) × (get_elem? route hop ≡ some link) × Fails link);
  compose = λ id route s t u p q. absurd (never_both dropped_apart p.1 q.0);
}
