-- ===== src/Transport/Runtime/Reports.antt =====
-- transport/telemetry.cpp: what a runtime reports of its chunks, its queues and its links.
use nexus_lab.Prelude.{
  ℕ, ◌-◌, Bool, not, ◌&&◌, Option, none, some, [], ◌∷◌, ltb, ◌==◌, if◌then◌else◌,
}
use nexus_lab.Prelude.Except.{Error, invalid_argument, logic_error, other, Result, ok, err}
use nexus_lab.Prelude.State.{M, ◌>>=◌, ◌>>◌, pure, get, modify, when, answer}
use nexus_lab.Topology.Entities.{DirectedLinkId, LinkDirection, a_to_b, b_to_a}
use nexus_lab.Topology.Graph.{link_id_eq}
use nexus_lab.Telemetry.Metrics.{
  MetricId, MetricLabels, link, direction, link_accepted_bytes, link_accepted_chunks,
  link_serialized_bytes, link_serialized_chunks, link_marked_bytes, link_marked_chunks,
  link_dropped_buffer_full_bytes, link_dropped_buffer_full_chunks, link_dropped_down_bytes,
  link_dropped_down_chunks, link_serializer_busy_ns, link_queue_waiting_bytes,
  link_queue_waiting_chunks, link_maximum_waiting_bytes,
}
use nexus_lab.Telemetry.Records.{
  Correlation, no_correlation, TelemetryObservation, TransferTransition, TransferReason,
  QueueTransition,
}
use nexus_lab.Sim.Env.{Env}
use nexus_lab.Sim.Context.{current_event_id, current_cause}
use nexus_lab.Transport.Statistics.{TrafficCount, LinkStatistics}
use nexus_lab.Transport.LinkQueue
use nexus_lab.Transport.LinkQueue.{QueueSnapshot}
use nexus_lab.Transport.LinkService.{DirectedLinkService}
use nexus_lab.Transport.Runtime.{TransportRuntime, ChunkRecord, find_entry, set_entry, find_service}

-- The enumerator's value.
abbrev pub direction_value : LinkDirection → ℕ
direction_value a_to_b = 1
direction_value b_to_a = 2

unfoldable pub link_labels : DirectedLinkId → MetricLabels
link_labels id =
    record { label = link; value = id.link }
    ∷ record { label = direction; value = direction_value id.direction }
    ∷ []

unfoldable pub counter_delta : ℕ → ℕ → Result ℕ
counter_delta before after =
    if ltb after before
    then err (logic_error "transport telemetry counter regressed")
    else ok (after - before)

abbrev pub unknown_service : Error
unknown_service = invalid_argument "unknown directed-link transport service"

abbrev pub service_found : Option DirectedLinkService → Result DirectedLinkService
service_found none = err unknown_service
service_found (some service) = ok service

abbrev pub time_found : Option ℕ → Result ℕ
time_found none = err other
time_found (some time) = ok time

module _ {G S : Type 0} where
  unfoldable pub require_service : DirectedLinkId → M (TransportRuntime G S) DirectedLinkService
  unfolding find_entry
  require_service id t = (service_found (find_service id t.services), t)

  -- `reported_busy_time_ns_.at(link)`
  unfoldable pub reported_busy : DirectedLinkId → M (TransportRuntime G S) ℕ
  unfolding find_entry
  reported_busy id t = (time_found (find_entry link_id_eq id t.reported_busy_time_ns), t)

  unfoldable pub set_reported : DirectedLinkId → ℕ → M (TransportRuntime G S) (Unit {0})
  unfolding set_entry
  set_reported id busy =
      modify λ t. record t {
        reported_busy_time_ns = set_entry link_id_eq id busy t.reported_busy_time_ns;
      }

module _ {G S : Type 0} (env : Env G S) where
  -- `telemetry_.enabled()`
  abbrev pub enabled : TransportRuntime G S → Bool
  enabled t = t.has_sink && env.enabled t.simulation.telemetry

  abbrev pub recorded :
      TransportRuntime G S → Result (Unit {0}) × S → Result (Unit {0}) × TransportRuntime G S
  recorded t (done, session) =
      (done, record t { simulation = record t.simulation { telemetry = session } })

  -- `telemetry_.record(context.now(), …)`
  unfoldable pub report : Correlation → TelemetryObservation → M (TransportRuntime G S) (Unit {0})
  report correlation observation t =
      recorded t
        (env.record_observation t.simulation.now correlation observation t.simulation.telemetry)

  -- `context.current_event_id()` and `context.cause()`
  unfoldable pub current_id : M (TransportRuntime G S) ℕ
  unfolding current_event_id
  current_id t = (current_event_id env t.simulation, t)

  unfoldable pub cause_of_event : M (TransportRuntime G S) (Option ℕ)
  unfolding current_cause
  cause_of_event t = (current_cause env t.simulation, t)

  unfoldable pub event_correlation : M (TransportRuntime G S) Correlation
  unfolding current_id cause_of_event no_correlation
  event_correlation = do
    id ← current_id
    cause ← cause_of_event
    pure (record no_correlation { event = some id; cause = cause })

  abbrev pub about_chunk : ChunkRecord → Option DirectedLinkId → Correlation → Correlation
  about_chunk entry id c = record c {
    transfer = some entry.chunk.transfer;
    chunk = some entry.chunk.id;
    link = id;
  }

  unfoldable pub emit_transfer :
      ChunkRecord
      → TransferTransition
      → Option DirectedLinkId
      → TransferReason
      → M (TransportRuntime G S) (Unit {0})
  unfolding event_correlation report
  emit_transfer entry transition id reason = do
    t ← get
    when (enabled t) do
      correlation ← event_correlation
      report (about_chunk entry id correlation) (
          TelemetryObservation.transfer (record {
            transition = transition;
            bytes = entry.chunk.bytes;
            hop = entry.hop_index;
            reason = reason;
          }))

  unfoldable pub emit_queue :
      ChunkRecord → DirectedLinkId → QueueTransition → M (TransportRuntime G S) (Unit {0})
  unfolding event_correlation report require_service
  emit_queue entry id transition = do
    t ← get
    when (enabled t) do
      correlation ← event_correlation
      service ← require_service id
      report (about_chunk entry (some id) correlation) (
          TelemetryObservation.queue (record {
            transition = transition;
            chunk_bytes = entry.chunk.bytes;
            waiting_bytes = (LinkQueue.snapshot service.queue).waiting_bytes;
            waiting_chunks = (LinkQueue.snapshot service.queue).waiting_chunks;
          }))

  -- A counter, if it has grown.
  unfoldable pub emit_count :
      Correlation → DirectedLinkId → MetricId → ℕ → M (TransportRuntime G S) (Unit {0})
  unfolding report link_labels
  emit_count correlation id metric amount = when (not (amount == 0)) (
      report correlation (
        TelemetryObservation.counter
          (record { metric = metric; labels = link_labels id; amount = amount })))

  -- `emit_delta`
  unfoldable pub emit_delta :
      Correlation
      → DirectedLinkId
      → MetricId
      → MetricId
      → TrafficCount
      → TrafficCount
      → M (TransportRuntime G S) (Unit {0})
  unfolding counter_delta emit_count
  emit_delta correlation id bytes_metric chunks_metric earlier later = do
    bytes ← answer (counter_delta earlier.bytes later.bytes)
    chunks ← answer (counter_delta earlier.chunks later.chunks)
    emit_count correlation id bytes_metric bytes
    emit_count correlation id chunks_metric chunks

  unfoldable pub emit_busy : Correlation → DirectedLinkId → ℕ → M (TransportRuntime G S) (Unit {0})
  unfolding reported_busy counter_delta emit_count set_reported
  emit_busy correlation id busy = do
    reported ← reported_busy id
    elapsed ← answer (counter_delta reported busy)
    emit_count correlation id link_serializer_busy_ns elapsed
    set_reported id busy

  unfoldable pub emit_link_metrics :
      DirectedLinkId → LinkStatistics → LinkStatistics → M (TransportRuntime G S) (Unit {0})
  unfolding event_correlation emit_delta emit_busy
  emit_link_metrics id before after = do
    t ← get
    when (enabled t) do
      plain ← event_correlation
      correlation ← pure (record plain { link = some id })
      emit_delta correlation id link_accepted_bytes link_accepted_chunks before.enqueued
          after.enqueued
      emit_delta correlation id link_serialized_bytes link_serialized_chunks before.completed
          after.completed
      emit_delta correlation id link_marked_bytes link_marked_chunks before.marked after.marked
      emit_delta correlation id link_dropped_buffer_full_bytes link_dropped_buffer_full_chunks
          before.dropped_buffer_full after.dropped_buffer_full
      emit_delta correlation id link_dropped_down_bytes link_dropped_down_chunks
          before.dropped_link_down after.dropped_link_down
      emit_busy correlation id after.busy_time

  abbrev pub gauge_of : DirectedLinkId → MetricId → ℕ → TelemetryObservation
  gauge_of id metric amount =
      TelemetryObservation.gauge
        (record { metric = metric; labels = link_labels id; amount = amount })

  unfoldable pub emit_queue_gauges :
      DirectedLinkId → QueueSnapshot → M (TransportRuntime G S) (Unit {0})
  unfolding event_correlation report
  emit_queue_gauges id snapshot = do
    t ← get
    when (enabled t) do
      plain ← event_correlation
      correlation ← pure (record plain { link = some id })
      report correlation (gauge_of id link_queue_waiting_bytes snapshot.waiting_bytes)
      report correlation (gauge_of id link_queue_waiting_chunks snapshot.waiting_chunks)
      report correlation (gauge_of id link_maximum_waiting_bytes snapshot.maximum_waiting_bytes)
