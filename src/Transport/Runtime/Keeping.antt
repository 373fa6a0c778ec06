-- ===== src/Transport/Runtime/Keeping.antt =====
-- What leaves the chunks of a runtime alone: the reports of transport/telemetry.cpp, the ends of
-- transfers, and the calls of the links and of the simulation.
use nexus_lab.Prelude.{ℕ, ◌≡◌, Bool, true, false, Option, none, some, List}
use nexus_lab.Prelude.Except.{Error, Result, ok, err}
use nexus_lab.Prelude.State.{M, and_then, when, require}
use nexus_lab.Topology.Entities.{DirectedLinkId}
use nexus_lab.Telemetry.Metrics.{MetricId}
use nexus_lab.Telemetry.Records.{
  Correlation, TelemetryObservation, TransferTransition, TransferReason, QueueTransition,
}
use nexus_lab.Sim.Event.{EventSpec}
use nexus_lab.Sim.Env.{Env}
use nexus_lab.Sim.Simulation.{Simulation}
use nexus_lab.Transport.Statistics.{TrafficCount, LinkStatistics}
use nexus_lab.Transport.LinkQueue.{
  TransferChunk, QueueSnapshot, AdmissionDisposition, dropped_buffer_full, service_started, queued,
}
use nexus_lab.Transport.LinkService.{DirectedLinkService, Outcome}
use nexus_lab.Transport.Runtime.{
  TransportRuntime, ChunkRecord, TransferRecord, TransferCompletion, find_service,
}
use nexus_lab.Transport.Runtime.Reports.{
  require_service, reported_busy, set_reported, report, current_id, cause_of_event,
  event_correlation, emit_transfer, emit_queue, emit_count, emit_delta, emit_busy,
  emit_link_metrics, emit_queue_gauges,
}
use nexus_lab.Transport.Runtime.Progress.{
  require_chunk, transfer_at, set_transfer, report_completion, complete_transfer, count_chunk,
  record_terminal,
}
use nexus_lab.Transport.Runtime.Handlers.{
  on_service, use_service, statistics_now, emit_link, announce_admission, end_admission,
}
use nexus_lab.Transport.Runtime.Completion.{schedule_event, announce_next}

-- After the operation the chunks are `c`.
pub record Kept {G S A : Type 0} (c : List (ℕ × ChunkRecord)) (x : Result A × TransportRuntime G S)
    : Type 0 where
  pub chunks : x.1.chunks ≡ c

module _ {G S : Type 0} {c : List (ℕ × ChunkRecord)} where
  pub bind :
      {A B : Type 0} {x : Result A × TransportRuntime G S} {f : A → M (TransportRuntime G S) B}
      → Kept c x
      → ((a : A) (t : TransportRuntime G S) → t.chunks ≡ c → Kept c (f a t))
      → Kept c (and_then x f)
  bind {x = (ok a, t)} k step = step a t k.chunks
  bind {x = (err e, t)} k step = record { chunks = k.chunks }

  pub same : {A : Type 0} {r : Result A} {t : TransportRuntime G S} → t.chunks ≡ c → Kept c (r, t)
  same h = record { chunks = h }

  pub when-Kept :
      (b : Bool) (m : M (TransportRuntime G S) (Unit {0})) (t : TransportRuntime G S)
      → t.chunks ≡ c
      → Kept c (m t)
      → Kept c (when b m t)
  when-Kept true m t h k = k
  when-Kept false m t h k = same h

  pub require-Kept :
      (b : Bool) (e : Error) (t : TransportRuntime G S) → t.chunks ≡ c → Kept c (require b e t)
  require-Kept true e t h = same h
  require-Kept false e t h = same h

module _ {G S : Type 0} {c : List (ℕ × ChunkRecord)} (t : TransportRuntime G S)
    (h : t.chunks ≡ c) where
  pub require_service-Kept : (id : DirectedLinkId) → Kept c (require_service id t)
  unfolding require_service
  require_service-Kept id = record { chunks = h }

  pub require_chunk-Kept : (id : ℕ) → Kept c (require_chunk id t)
  unfolding require_chunk
  require_chunk-Kept id = record { chunks = h }

  reported_busy-Kept : (id : DirectedLinkId) → Kept c (reported_busy id t)
  unfolding reported_busy
  reported_busy-Kept id = record { chunks = h }

  set_reported-Kept : (id : DirectedLinkId) (busy : ℕ) → Kept c (set_reported id busy t)
  unfolding set_reported
  set_reported-Kept id busy = record { chunks = h }

  pub transfer_at-Kept : (id : ℕ) → Kept c (transfer_at id t)
  unfolding transfer_at
  transfer_at-Kept id = record { chunks = h }

  pub set_transfer-Kept : (id : ℕ) (transfer : TransferRecord) → Kept c (set_transfer id transfer t)
  unfolding set_transfer
  set_transfer-Kept id transfer = record { chunks = h }

  on_service-Kept :
      {A : Type 0} (id : DirectedLinkId)
      (operation : DirectedLinkService → Simulation G S → Outcome G S A)
      (service : Option DirectedLinkService)
      → Kept c (on_service id operation service t)
  on_service-Kept id operation none = record { chunks = h }
  on_service-Kept id operation (some service) = record { chunks = h }

  pub use_service-Kept :
      {A : Type 0} (id : DirectedLinkId)
      (operation : DirectedLinkService → Simulation G S → Outcome G S A)
      → Kept c (use_service id operation t)
  unfolding use_service
  use_service-Kept id operation = on_service-Kept id operation (find_service id t.services)

  pub statistics_now-Kept : (id : DirectedLinkId) → Kept c (statistics_now id t)
  unfolding statistics_now
  statistics_now-Kept id = bind (require_service-Kept id) (λ service u k. same k)

module _ {G S : Type 0} {c : List (ℕ × ChunkRecord)} (env : Env G S) (t : TransportRuntime G S)
    (h : t.chunks ≡ c) where
  pub schedule_event-Kept : (spec : EventSpec) → Kept c (schedule_event env spec t)
  unfolding schedule_event
  schedule_event-Kept spec = record { chunks = h }

  report-Kept : (k : Correlation) (o : TelemetryObservation) → Kept c (report env k o t)
  unfolding report
  report-Kept k o = record { chunks = h }

  event_correlation-Kept : Kept c (event_correlation env t)
  unfolding event_correlation current_id cause_of_event
  event_correlation-Kept = search (bind, same)

module _ {G S : Type 0} {c : List (ℕ × ChunkRecord)} (env : Env G S) (t : TransportRuntime G S)
    (h : t.chunks ≡ c) where
  pub emit_transfer-Kept :
      (entry : ChunkRecord) (transition : TransferTransition) (id : Option DirectedLinkId)
      (why : TransferReason)
      → Kept c (emit_transfer env entry transition id why t)
  unfolding emit_transfer
  emit_transfer-Kept entry transition id why =
      search (bind, same, when-Kept, event_correlation-Kept)

  pub emit_queue-Kept :
      (entry : ChunkRecord) (id : DirectedLinkId) (transition : QueueTransition)
      → Kept c (emit_queue env entry id transition t)
  unfolding emit_queue
  emit_queue-Kept entry id transition = search (bind, same, when-Kept, event_correlation-Kept)

  emit_count-Kept :
      (k : Correlation) (id : DirectedLinkId) (metric : MetricId) (amount : ℕ)
      → Kept c (emit_count env k id metric amount t)
  unfolding emit_count
  emit_count-Kept k id metric amount = search (when-Kept, report-Kept)

  emit_queue_gauges-Kept :
      (id : DirectedLinkId) (snapshot : QueueSnapshot)
      → Kept c (emit_queue_gauges env id snapshot t)
  unfolding emit_queue_gauges
  emit_queue_gauges-Kept id snapshot =
      search (bind, same, when-Kept, event_correlation-Kept) depth 12

  report_completion-Kept :
      (transfer : TransferRecord) (completion : TransferCompletion)
      → Kept c (report_completion env transfer completion t)
  unfolding report_completion
  report_completion-Kept transfer completion =
      search (bind, same, when-Kept, event_correlation-Kept) depth 12

module _ {G S : Type 0} {c : List (ℕ × ChunkRecord)} (env : Env G S) (t : TransportRuntime G S)
    (h : t.chunks ≡ c) where
  emit_delta-Kept :
      (k : Correlation) (id : DirectedLinkId) (b m : MetricId) (earlier later : TrafficCount)
      → Kept c (emit_delta env k id b m earlier later t)
  unfolding emit_delta
  emit_delta-Kept k id b m earlier later = search (bind, same, emit_count-Kept) depth 8

  emit_busy-Kept :
      (k : Correlation) (id : DirectedLinkId) (busy : ℕ) → Kept c (emit_busy env k id busy t)
  unfolding emit_busy
  emit_busy-Kept k id busy = search (bind, same, emit_count-Kept) depth 8

  complete_transfer-Kept :
      (due : Option TransferCompletion) (id : ℕ) (transfer : TransferRecord)
      → Kept c (complete_transfer env due id transfer t)
  unfolding complete_transfer
  complete_transfer-Kept none id transfer = same h
  complete_transfer-Kept (some completion) id transfer = search report_completion-Kept

module _ {G S : Type 0} {c : List (ℕ × ChunkRecord)} (env : Env G S) (t : TransportRuntime G S)
    (h : t.chunks ≡ c) where
  emit_link_metrics-Kept :
      (id : DirectedLinkId) (before after : LinkStatistics)
      → Kept c (emit_link_metrics env id before after t)
  unfolding emit_link_metrics
  emit_link_metrics-Kept id before after =
      search (bind, same, when-Kept, event_correlation-Kept, emit_delta-Kept, emit_busy-Kept) depth
        16

  count_chunk-Kept :
      (entry : ChunkRecord) (transfer : TransferRecord) → Kept c (count_chunk env entry transfer t)
  unfolding count_chunk
  count_chunk-Kept entry transfer = search (bind, same, complete_transfer-Kept) depth 12

module _ {G S : Type 0} {c : List (ℕ × ChunkRecord)} (env : Env G S) (t : TransportRuntime G S)
    (h : t.chunks ≡ c) where
  pub emit_link-Kept :
      (id : DirectedLinkId) (before after : LinkStatistics)
      → Kept c (emit_link env id before after t)
  unfolding emit_link
  emit_link-Kept id before after =
      search (bind, same, emit_link_metrics-Kept, emit_queue_gauges-Kept) depth 8

  pub record_terminal-Kept : (entry : ChunkRecord) → Kept c (record_terminal env entry t)
  unfolding record_terminal
  record_terminal-Kept entry = search (bind, same, when-Kept, count_chunk-Kept) depth 8

  pub announce_admission-Kept :
      (disposition : AdmissionDisposition) (marked_here : Bool) (link : DirectedLinkId)
      (entry : ChunkRecord)
      → Kept c (announce_admission env disposition marked_here link entry t)
  unfolding announce_admission
  announce_admission-Kept dropped_buffer_full marked_here link entry =
      search (bind, emit_queue-Kept, emit_transfer-Kept)
  announce_admission-Kept service_started marked_here link entry =
      search (bind, when-Kept, emit_queue-Kept, emit_transfer-Kept) depth 9
  announce_admission-Kept queued marked_here link entry =
      search (bind, when-Kept, emit_queue-Kept, emit_transfer-Kept) depth 9

  pub announce_next-Kept :
      (link : DirectedLinkId) (next : Option TransferChunk) → Kept c (announce_next env link next t)
  unfolding announce_next
  announce_next-Kept link none = same h
  announce_next-Kept link (some chunk) =
      search (bind, same, emit_queue-Kept, emit_transfer-Kept) depth 8

module _ {G S : Type 0} {c : List (ℕ × ChunkRecord)} (env : Env G S) (t : TransportRuntime G S)
    (h : t.chunks ≡ c) where
  pub end_admission-Kept :
      (disposition : AdmissionDisposition) (entry : ChunkRecord)
      → Kept c (end_admission env disposition entry t)
  unfolding end_admission
  end_admission-Kept dropped_buffer_full entry = record_terminal-Kept env t h entry
  end_admission-Kept service_started entry = same h
  end_admission-Kept queued entry = same h
