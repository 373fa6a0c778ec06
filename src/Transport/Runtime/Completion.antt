-- ===== src/Transport/Runtime/Completion.antt =====
-- transport/runtime.cpp: the end of a transmission, after which the chunk propagates to its next hop.
use nexus_lab.Prelude.{ℕ, ◌+◌, ◌%◌, Bool, false, ◌&&◌, Option, none, some, get_elem?, ◌==◌}
use nexus_lab.Prelude.Except.{Error, logic_error, overflow_error, Result, ok, err}
use nexus_lab.Prelude.State.{M, ◌>>=◌, ◌>>◌, pure, get, answer, require}
use nexus_lab.Topology.Entities.{DirectedLinkId}
use nexus_lab.Topology.Graph.{link_id_eq}
use nexus_lab.Telemetry.Records.{
  chunk_serialized, chunk_service_started, no_reason, service_started, service_completed,
}
use nexus_lab.Sim.Time.{checked_add}
use nexus_lab.Sim.Event.{TransmissionCompleteEvent, EventPayload, EventSpec, normal}
use nexus_lab.Sim.Env.{Env}
use nexus_lab.Sim.Simulation.{Simulation}
use nexus_lab.Sim.Context
use nexus_lab.Transport.Statistics.{LinkStatistics}
use nexus_lab.Transport.LinkQueue.{TransferChunk}
use nexus_lab.Transport.LinkService
use nexus_lab.Transport.LinkService.{DirectedLinkService}
use nexus_lab.Transport.Runtime.{TransportRuntime, ChunkRecord, awaiting_arrival}
use nexus_lab.Transport.Runtime.Reports.{require_service, emit_transfer, emit_queue}
use nexus_lab.Transport.Runtime.Progress.{require_chunk, set_chunk}
use nexus_lab.Transport.Runtime.Handlers.{is_admitted, use_service, statistics_now, emit_link}

-- Whether the route of a chunk has this link at a hop.
abbrev pub crosses : DirectedLinkId → Option DirectedLinkId → Bool
crosses link none = false
crosses link (some crossed) = link_id_eq crossed link

-- The link of a completion event.
abbrev pub link_of : TransmissionCompleteEvent → DirectedLinkId
link_of e = record { link = e.link; direction = e.direction }

abbrev pub expected_completion : TransmissionCompleteEvent → ChunkRecord → Bool
expected_completion e entry =
    is_admitted entry.state
    && e.hop_index == entry.hop_index
    && crosses (link_of e) (get_elem? entry.route e.hop_index)

abbrev pub unexpected_completion : Error
unexpected_completion = logic_error "unexpected routed transmission-completion event"

-- The record of a chunk after the handler's writes.
abbrev pub serialized : TransferChunk → ChunkRecord → ChunkRecord
serialized chunk entry = record entry { chunk = chunk }

-- `++record.hop_index`, of 32 bits
abbrev pub next_hop : ChunkRecord → ChunkRecord
next_hop entry = record entry { hop_index = (entry.hop_index + 1) % 4294967296 }

abbrev pub propagating : ℕ → ChunkRecord → ChunkRecord
propagating event entry = record entry { state = awaiting_arrival; scheduled_arrival = some event }

abbrev pub arrival_time : Option ℕ → Result ℕ
arrival_time none = err (overflow_error "propagation arrival exceeds simulated-time range")
arrival_time (some time) = ok time

abbrev pub arrival_spec : ℕ → ℕ → ℕ → EventSpec
arrival_spec time chunk hop = record {
  timestamp = time;
  priority = normal;
  payload = EventPayload.chunk_arrival (record { chunk = chunk; hop_index = hop });
}

module _ {G S : Type 0} (env : Env G S) where
  abbrev pub in_simulation :
      {A : Type 0}
      → TransportRuntime G S
      → Result A × Simulation G S
      → Result A × TransportRuntime G S
  in_simulation t (done, s) = (done, record t { simulation = s })

  -- `context.schedule`
  unfoldable pub schedule_event : EventSpec → M (TransportRuntime G S) ℕ
  schedule_event spec t = in_simulation t (Context.schedule env spec t.simulation)

  -- The reports on the chunk that is served next.
  unfoldable pub announce_next :
      DirectedLinkId → Option TransferChunk → M (TransportRuntime G S) (Unit {0})
  unfolding require_chunk emit_queue emit_transfer
  announce_next link none = pure tt
  announce_next link (some chunk) = do
    next ← require_chunk chunk.id
    emit_queue env next link service_started
    emit_transfer env next chunk_service_started (some link) no_reason

  -- The end of `handle_completion`: the hop, and the arrival at its end.
  unfoldable pub propagate : ℕ → ℕ → ChunkRecord → M (TransportRuntime G S) (Unit {0})
  unfolding set_chunk schedule_event
  propagate id time entry = do
    set_chunk id entry
    event ← schedule_event (arrival_spec time entry.chunk.id entry.hop_index)
    set_chunk id (propagating event entry)

  -- `handle_completion` behind the call of the service.
  unfoldable pub settle_completion :
      ℕ
      → DirectedLinkId
      → LinkStatistics
      → ℕ
      → Option TransferChunk
      → ChunkRecord
      → M (TransportRuntime G S) (Unit {0})
  unfolding set_chunk emit_queue emit_transfer announce_next statistics_now emit_link propagate
  settle_completion id link before time next entry = do
    after ← statistics_now link
    set_chunk id entry
    emit_queue env entry link service_completed
    emit_transfer env entry chunk_serialized (some link) no_reason
    announce_next link next
    emit_link env link before after
    propagate id time (next_hop entry)

  abbrev pub mismatch : Error
  mismatch = logic_error "completed service chunk does not match routed chunk"

  -- `handle_completion` from the call of the service on, for the time of the next arrival.
  unfoldable pub end_service :
      TransmissionCompleteEvent
      → ChunkRecord
      → LinkStatistics
      → ℕ
      → M (TransportRuntime G S) (Unit {0})
  unfolding use_service settle_completion
  end_service e entry before time = do
    transition ← use_service (link_of e) (λ v s. LinkService.handle_completion env e v s)
    require (transition.completed.id == entry.chunk.id) mismatch
    settle_completion e.chunk (link_of e) before time transition.next_started
        (serialized transition.completed entry)

  -- The time at which the propagation that starts now ends.
  abbrev pub end_of_propagation : ℕ → DirectedLinkService → Result ℕ
  end_of_propagation now service =
      arrival_time (checked_add now service.queue.configuration.propagation_delay)

  -- `handle_completion` behind its test of the event.
  unfoldable pub complete_at :
      TransmissionCompleteEvent → ChunkRecord → M (TransportRuntime G S) (Unit {0})
  unfolding statistics_now require_service end_service
  complete_at e entry = do
    before ← statistics_now (link_of e)
    service ← require_service (link_of e)
    t ← get
    time ← answer (end_of_propagation t.simulation.now service)
    end_service e entry before time

  unfoldable pub handle_completion : TransmissionCompleteEvent → M (TransportRuntime G S) (Unit {0})
  unfolding require_chunk complete_at
  handle_completion e = do
    entry ← require_chunk e.chunk
    require (expected_completion e entry) unexpected_completion
    complete_at e entry
