-- ===== src/Transport/Runtime/Snapshot.antt =====
-- transport/progress.cpp: where the chunks of a transfer are, as `transfer_snapshot` adds them up.
use nexus_lab.Prelude.{ℕ, Bool, true, false, Option, none, some, List, [], ◌∷◌, get_elem?, ◌==◌}
use nexus_lab.Prelude.Except.{other, Result, ok, err}
use nexus_lab.Topology.Entities.{DirectedLinkId}
use nexus_lab.Transport.Statistics.{TrafficCount, no_traffic, add_traffic}
use nexus_lab.Transport.LinkQueue.{TransferChunk}
use nexus_lab.Transport.LinkService.{DirectedLinkService, traffic_of}
use nexus_lab.Transport.Runtime.{
  TransportRuntime, ChunkRecord, ChunkTransitState, awaiting_arrival, admitted, TransferRecord,
  TransferCompletion, find_entry, find_chunk, find_transfer, find_service,
}

pub record TransferSnapshot : Type 0 where
  pub total : TrafficCount
  pub registered : TrafficCount
  pub awaiting_initial_arrival : TrafficCount
  pub waiting : TrafficCount
  pub active : TrafficCount
  pub propagating : TrafficCount
  pub delivered : TrafficCount
  pub dropped_buffer_full : TrafficCount
  pub dropped_link_down : TrafficCount
  pub started_at : Option ℕ
  pub completion : Option TransferCompletion

-- The snapshot before the loop over the chunks.
abbrev pub snapshot_start : TransferRecord → TransferSnapshot
snapshot_start transfer = record {
  total = transfer.total;
  registered = no_traffic;
  awaiting_initial_arrival = no_traffic;
  waiting = no_traffic;
  active = no_traffic;
  propagating = no_traffic;
  delivered = transfer.delivered;
  dropped_buffer_full = transfer.dropped_buffer_full;
  dropped_link_down = transfer.dropped_link_down;
  started_at = transfer.started_at;
  completion = transfer.completion;
}

abbrev pub put_count :
    (TrafficCount → TransferSnapshot) → Result TrafficCount → Result TransferSnapshot
put_count put (err e) = err e
put_count put (ok sum) = ok (put sum)

abbrev pub serves : ℕ → Option TransferChunk → Bool
serves chunk none = false
serves chunk (some active) = active.id == chunk

-- `services_.at(record.route.at(record.hop_index))`; `other` stands for `std::out_of_range`.
abbrev pub service_of :
    Option DirectedLinkId → List (DirectedLinkId × DirectedLinkService) → Result DirectedLinkService
service_of none services = err other
service_of (some link) services = elim (find_service link services) [
  | none ↦ err other
  | some service ↦ ok service
]

abbrev pub add_awaiting : Bool → TrafficCount → TransferSnapshot → Result TransferSnapshot
add_awaiting true count s =
    put_count (λ sum. record s { awaiting_initial_arrival = sum })
      (add_traffic s.awaiting_initial_arrival count)
add_awaiting false count s =
    put_count (λ sum. record s { propagating = sum }) (add_traffic s.propagating count)

abbrev pub add_admitted : Bool → TrafficCount → TransferSnapshot → Result TransferSnapshot
add_admitted true count s =
    put_count (λ sum. record s { active = sum }) (add_traffic s.active count)
add_admitted false count s =
    put_count (λ sum. record s { waiting = sum }) (add_traffic s.waiting count)

-- The `switch` of the loop.
unfoldable pub add_chunk :
    ChunkTransitState
    → ℕ
    → ChunkRecord
    → List (DirectedLinkId × DirectedLinkService)
    → TransferSnapshot
    → Result TransferSnapshot
unfolding find_entry add_traffic
add_chunk ChunkTransitState.registered chunk entry services s =
    put_count (λ sum. record s { registered = sum })
      (add_traffic s.registered (traffic_of entry.chunk))
add_chunk awaiting_arrival chunk entry services s =
    add_awaiting (entry.hop_index == 0) (traffic_of entry.chunk) s
add_chunk admitted chunk entry services s =
    elim (service_of (get_elem? entry.route entry.hop_index) services) [
      | err e ↦ err e
      | ok service ↦ add_admitted (serves chunk service.queue.active) (traffic_of entry.chunk) s
    ]
add_chunk _ chunk entry services s = ok s

module _ {G S : Type 0} where
  -- The loop over the chunks of a transfer.
  unfoldable pub add_chunks :
      List ℕ → TransportRuntime G S → TransferSnapshot → Result TransferSnapshot
  unfolding find_entry add_chunk
  add_chunks [] t s = ok s
  add_chunks (chunk ∷ chunks) t s = elim (find_chunk chunk t.chunks) [
    | none ↦ err other
    | some entry ↦ elim (add_chunk entry.state chunk entry t.services s) [
      | err e ↦ err e
      | ok next ↦ add_chunks chunks t next
    ]
  ]

  unfoldable pub transfer_snapshot : ℕ → TransportRuntime G S → Result (Option TransferSnapshot)
  unfolding find_entry add_chunks
  transfer_snapshot id t = elim (find_transfer id t.transfers) [
    | none ↦ ok none
    | some transfer ↦ elim (add_chunks transfer.chunks t (snapshot_start transfer)) [
      | err e ↦ err e
      | ok s ↦ ok (some s)
    ]
  ]
