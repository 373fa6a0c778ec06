-- ===== src/Transport/Runtime/Handlers.antt =====
-- transport/runtime.cpp and failure.cpp: the handlers of a runtime.
use nexus_lab.Prelude.{
  ℕ, Bool, true, false, ◌&&◌, ◌||◌, Option, none, some, length, get_elem?, ◌==◌, if◌then◌else◌,
}
use nexus_lab.Prelude.Except.{Error, logic_error, other, Result, ok, err}
use nexus_lab.Prelude.State.{M, ◌>>=◌, ◌>>◌, pure, throw, get, when, answer, require}
use nexus_lab.Topology.Entities.{DirectedLinkId}
use nexus_lab.Topology.Graph.{link_id_eq}
use nexus_lab.Topology.Operation.{is_operational}
use nexus_lab.Telemetry.Records.{
  chunk_queued, chunk_service_started, chunk_delivered, chunk_dropped, no_reason, buffer_full,
  resource_down, enqueued, service_started, marked, dropped,
}
use nexus_lab.Sim.Event.{ChunkArrivalEvent}
use nexus_lab.Sim.Env.{Env}
use nexus_lab.Sim.Simulation.{Simulation}
use nexus_lab.Sim.Context.{current_event_id}
use nexus_lab.Transport.Statistics.{LinkStatistics}
use nexus_lab.Transport.LinkQueue
use nexus_lab.Transport.LinkQueue.{
  TransferChunk, AdmissionDisposition, AdmissionResult, ServiceTransition, QueueDrain,
}
use nexus_lab.Transport.LinkService
use nexus_lab.Transport.LinkService.{
  DirectedLinkService, Outcome, statistics_at, record_link_down, reconcile_down,
}
use nexus_lab.Transport.Runtime.{
  TransportRuntime, ChunkRecord, ChunkTransitState, awaiting_arrival, admitted, delivered,
  dropped_buffer_full, dropped_link_down, find_entry, set_entry, find_service, require_fabric_arc,
}
use nexus_lab.Transport.Runtime.Reports.{
  require_service, emit_transfer, emit_queue, emit_link_metrics, emit_queue_gauges, unknown_service,
}
use nexus_lab.Transport.Runtime.Progress.{require_chunk, set_chunk, record_terminal}

abbrev pub is_awaiting : ChunkTransitState → Bool
is_awaiting awaiting_arrival = true
is_awaiting _ = false

abbrev pub is_admitted : ChunkTransitState → Bool
is_admitted admitted = true
is_admitted _ = false

abbrev pub unexpected_arrival : Error
unexpected_arrival = logic_error "unexpected chunk-arrival event"

-- The test of `handle_arrival`: the scheduled event is the one in dispatch, at the hop of the chunk.
abbrev pub expected_arrival :
    ChunkArrivalEvent → ChunkRecord → Option ℕ → Result ℕ → Result (Unit {0})
expected_arrival e entry none current = err unexpected_arrival
expected_arrival e entry (some scheduled) (err x) = err x
expected_arrival e entry (some scheduled) (ok current) =
    if scheduled == current && e.hop_index == entry.hop_index then ok tt else err unexpected_arrival

-- The record of a chunk after the handler's writes.
abbrev pub delivered_entry : ChunkRecord → ChunkRecord
delivered_entry entry = record entry { scheduled_arrival = none; state = delivered }

abbrev pub down_entry : ChunkRecord → ChunkRecord
down_entry entry = record entry { scheduled_arrival = none; state = dropped_link_down }

abbrev pub positioned : ℕ → ChunkRecord → ChunkRecord
positioned hop entry = record entry { chunk = record entry.chunk { hop_index = hop } }

abbrev pub state_after : AdmissionDisposition → ChunkTransitState
state_after AdmissionDisposition.dropped_buffer_full = dropped_buffer_full
state_after _ = admitted

abbrev pub entered : AdmissionResult → ChunkRecord → ChunkRecord
entered admission entry = record entry {
  scheduled_arrival = none;
  chunk = record entry.chunk { marked = entry.chunk.marked || admission.marked_here };
  state = state_after admission.disposition;
}

module _ {G S : Type 0} where
  abbrev pub after_service :
      DirectedLinkId
      → {A : Type 0} → Outcome G S A
      → TransportRuntime G S
      → Result A × TransportRuntime G S
  after_service id (done, service, s) t =
      (done, record t { services = set_entry link_id_eq id service t.services; simulation = s })

  abbrev pub on_service :
      {A : Type 0}
      → DirectedLinkId
      → (DirectedLinkService → Simulation G S → Outcome G S A)
      → Option DirectedLinkService
      → M (TransportRuntime G S) A
  on_service id operation none t = (err unknown_service, t)
  on_service id operation (some service) t = after_service id (operation service t.simulation) t

  -- An operation of a service, which is found by its link.
  unfoldable pub use_service :
      {A : Type 0}
      → DirectedLinkId
      → (DirectedLinkService → Simulation G S → Outcome G S A)
      → M (TransportRuntime G S) A
  unfolding find_entry set_entry
  use_service id operation t = on_service id operation (find_service id t.services) t

  -- `service.statistics(context.now())`
  unfoldable pub statistics_now : DirectedLinkId → M (TransportRuntime G S) LinkStatistics
  unfolding require_service statistics_at
  statistics_now id = do
    service ← require_service id
    t ← get
    answer (statistics_at t.simulation.now service)

  unfoldable pub drop_at :
      TransferChunk → DirectedLinkService → Simulation G S → Outcome G S (Unit {0})
  unfolding record_link_down
  drop_at chunk service s =
      let (done, counted) = record_link_down chunk service in (done, counted, s)

module _ {G S : Type 0} (env : Env G S) where
  -- `emit_link_metrics` and `emit_queue_gauges` at the end of a handler.
  unfoldable pub emit_link :
      DirectedLinkId → LinkStatistics → LinkStatistics → M (TransportRuntime G S) (Unit {0})
  unfolding emit_link_metrics require_service emit_queue_gauges
  emit_link id before after = do
    emit_link_metrics env id before after
    service ← require_service id
    emit_queue_gauges env id (LinkQueue.snapshot service.queue)

  -- `handle_arrival` at the end of the route.
  unfoldable pub deliver : ℕ → ChunkRecord → M (TransportRuntime G S) (Unit {0})
  unfolding set_chunk emit_transfer record_terminal
  deliver id entry = do
    set_chunk id entry
    emit_transfer env entry chunk_delivered none no_reason
    record_terminal env entry

  -- `handle_arrival` at a link that is down.
  unfoldable pub refuse : ℕ → DirectedLinkId → ChunkRecord → M (TransportRuntime G S) (Unit {0})
  unfolding statistics_now use_service drop_at set_chunk emit_queue emit_transfer emit_link
      record_terminal
  refuse id link entry = do
    before ← statistics_now link
    use_service link (drop_at entry.chunk)
    after ← statistics_now link
    set_chunk id entry
    emit_queue env entry link dropped
    emit_transfer env entry chunk_dropped (some link) resource_down
    emit_link link before after
    record_terminal env entry

  -- The reports of `handle_arrival` on the answer of a queue.
  unfoldable pub announce_admission :
      AdmissionDisposition
      → Bool
      → DirectedLinkId
      → ChunkRecord
      → M (TransportRuntime G S) (Unit {0})
  unfolding emit_queue emit_transfer
  announce_admission AdmissionDisposition.dropped_buffer_full marked_here link entry = do
    emit_queue env entry link dropped
    emit_transfer env entry chunk_dropped (some link) buffer_full
  announce_admission AdmissionDisposition.service_started marked_here link entry = do
    emit_queue env entry link enqueued
    when marked_here (emit_queue env entry link marked)
    emit_queue env entry link service_started
    emit_transfer env entry chunk_service_started (some link) no_reason
  announce_admission AdmissionDisposition.queued marked_here link entry = do
    emit_queue env entry link enqueued
    when marked_here (emit_queue env entry link marked)
    emit_transfer env entry chunk_queued (some link) no_reason

  -- The end of `handle_arrival` for a chunk that does not fit the buffer.
  unfoldable pub end_admission :
      AdmissionDisposition → ChunkRecord → M (TransportRuntime G S) (Unit {0})
  unfolding record_terminal
  end_admission AdmissionDisposition.dropped_buffer_full entry = record_terminal env entry
  end_admission _ entry = pure tt

  unfoldable pub settle_admission :
      ℕ
      → DirectedLinkId
      → LinkStatistics
      → AdmissionResult
      → ChunkRecord
      → M (TransportRuntime G S) (Unit {0})
  unfolding statistics_now set_chunk announce_admission emit_link end_admission
  settle_admission id link before admission entry = do
    after ← statistics_now link
    set_chunk id entry
    announce_admission admission.disposition admission.marked_here link entry
    emit_link link before after
    end_admission admission.disposition entry

  -- `handle_arrival` at a link that is up.
  unfoldable pub enter_link : ℕ → DirectedLinkId → ChunkRecord → M (TransportRuntime G S) (Unit {0})
  unfolding set_chunk statistics_now use_service settle_admission
  enter_link id link entry = do
    set_chunk id entry
    before ← statistics_now link
    admission ← use_service link (λ service s. LinkService.admit env entry.chunk service s)
    settle_admission id link before admission (entered admission entry)

  -- `record.route[event.hop_index]`; past the end of the route the code has no such element.
  unfoldable pub arrive_at :
      ChunkArrivalEvent → ChunkRecord → Option DirectedLinkId → M (TransportRuntime G S) (Unit {0})
  unfolding require_fabric_arc is_operational refuse enter_link
  arrive_at e entry none = throw other
  arrive_at e entry (some link) = do
    t ← get
    directed ← answer (require_fabric_arc link t.topology)
    if is_operational directed t.topology
        then enter_link e.chunk link (positioned e.hop_index entry)
        else refuse e.chunk link (down_entry entry)

  unfoldable pub arrive : ChunkArrivalEvent → ChunkRecord → M (TransportRuntime G S) (Unit {0})
  unfolding deliver arrive_at
  arrive e entry =
      if e.hop_index == length entry.route
      then deliver e.chunk (delivered_entry entry)
      else arrive_at e entry (get_elem? entry.route e.hop_index)

  unfoldable pub handle_arrival : ChunkArrivalEvent → M (TransportRuntime G S) (Unit {0})
  unfolding require_chunk current_event_id arrive
  handle_arrival e = do
    entry ← require_chunk e.chunk
    require (is_awaiting entry.state) unexpected_arrival
    t ← get
    answer (expected_arrival e entry entry.scheduled_arrival (current_event_id env t.simulation))
    arrive e entry
