-- ===== src/Transport/Runtime/Progress.antt =====
-- transport/progress.cpp: the end of a chunk, and of the transfer that it belongs to.
use nexus_lab.Prelude.{ℕ, not, Option, none, some, [], ◌∷◌, ◌++◌, ◌==◌, if◌then◌else◌, has_value}
use nexus_lab.Prelude.Except.{invalid_argument, logic_error, other, Result, ok, err}
use nexus_lab.Prelude.State.{M, ◌>>=◌, ◌>>◌, pure, throw, get, modify, when, answer}
use nexus_lab.Telemetry.Metrics.{outcome, transfer_terminal_total}
use nexus_lab.Telemetry.Records.{
  Correlation, TelemetryObservation, TransferTransition, TransferReason, no_reason, buffer_full,
  resource_down,
}
use nexus_lab.Telemetry.Records
use nexus_lab.Sim.Env.{Env}
use nexus_lab.Transport.Statistics.{TrafficCount, add_traffic}
use nexus_lab.Transport.LinkService.{traffic_of}
use nexus_lab.Transport.Runtime.{
  TransportRuntime, ChunkRecord, ChunkTransitState, delivered, dropped_buffer_full,
  dropped_link_down, TransferRecord, TransferOutcome, pending, succeeded, failed,
  TransferCompletion, find_entry, set_entry, find_chunk, find_transfer,
}
use nexus_lab.Transport.Runtime.Reports.{enabled, event_correlation, report}

-- The `switch` of `record_terminal` on the state of the chunk.
unfoldable pub count_terminal :
    ChunkTransitState → TrafficCount → TransferRecord → Result TransferRecord
unfolding add_traffic
count_terminal delivered count transfer = elim (add_traffic transfer.delivered count) [
  | err e ↦ err e
  | ok sum ↦ ok (record transfer { delivered = sum })
]
count_terminal dropped_buffer_full count transfer =
    elim (add_traffic transfer.dropped_buffer_full count) [
      | err e ↦ err e
      | ok sum ↦ ok (record transfer { dropped_buffer_full = sum })
    ]
count_terminal dropped_link_down count transfer =
    elim (add_traffic transfer.dropped_link_down count) [
      | err e ↦ err e
      | ok sum ↦ ok (record transfer { dropped_link_down = sum })
    ]
count_terminal _ count transfer = err (logic_error "nonterminal chunk cannot finish a transfer")

-- `drops` of `record_terminal`
unfoldable pub drops : TransferRecord → Result TrafficCount
unfolding add_traffic
drops transfer = add_traffic transfer.dropped_buffer_full transfer.dropped_link_down

-- The completion of a transfer, for the number of its chunks that were dropped.
abbrev pub completion_of : ℕ → ℕ → ℕ → TransferRecord → TransferCompletion
completion_of id dropped now transfer = record {
  transfer = id;
  outcome = if dropped == 0 then succeeded else failed;
  timestamp = now;
  delivered = transfer.delivered;
  dropped_buffer_full = transfer.dropped_buffer_full;
  dropped_link_down = transfer.dropped_link_down;
}

-- The test for the end of a transfer, with `drops` and the sum `terminal`.
abbrev pub due_of_sum :
    ℕ → ℕ → TransferRecord → TrafficCount → Result TrafficCount → Result (Option TransferCompletion)
due_of_sum id now transfer dropped (err e) = err e
due_of_sum id now transfer dropped (ok terminal) =
    if not (terminal.chunks == transfer.total.chunks)
    then ok none
    else if not (terminal.bytes == transfer.total.bytes)
    then err (logic_error "terminal transfer byte accounting mismatch")
    else ok (some (completion_of id dropped.chunks now transfer))

abbrev pub due_of_drops :
    ℕ → ℕ → TransferRecord → Result TrafficCount → Result (Option TransferCompletion)
due_of_drops id now transfer (err e) = err e
due_of_drops id now transfer (ok dropped) =
    due_of_sum id now transfer dropped (add_traffic transfer.delivered dropped)

-- The completion that the counts of a transfer call for, if they do.
unfoldable pub completion_due : ℕ → ℕ → TransferRecord → Result (Option TransferCompletion)
unfolding drops
completion_due id now transfer = due_of_drops id now transfer (drops transfer)

abbrev pub end_transition : TransferOutcome → TransferTransition
end_transition succeeded = Records.TransferTransition.succeeded
end_transition _ = Records.TransferTransition.failed

abbrev pub end_reason : TransferCompletion → TransferReason
end_reason c =
    if not (c.dropped_buffer_full.chunks == 0)
    then buffer_full
    else if not (c.dropped_link_down.chunks == 0)
    then resource_down
    else no_reason

-- The enumerator's value.
abbrev pub outcome_value : TransferOutcome → ℕ
outcome_value pending = 1
outcome_value succeeded = 2
outcome_value failed = 3

abbrev pub transfer_found : Option TransferRecord → Result TransferRecord
transfer_found none = err other
transfer_found (some transfer) = ok transfer

abbrev pub chunk_found : Option ChunkRecord → Result ChunkRecord
chunk_found none = err (invalid_argument "unknown routed chunk identifier")
chunk_found (some entry) = ok entry

module _ {G S : Type 0} where
  unfoldable pub require_chunk : ℕ → M (TransportRuntime G S) ChunkRecord
  unfolding find_entry
  require_chunk id t = (chunk_found (find_chunk id t.chunks), t)

  -- A write to the chunk of `id`.
  unfoldable pub set_chunk : ℕ → ChunkRecord → M (TransportRuntime G S) (Unit {0})
  unfolding set_entry
  set_chunk id entry =
      modify λ t. record t { chunks = set_entry (λ (a b : ℕ). a == b) id entry t.chunks }

  -- `transfers_.at(id)`
  unfoldable pub transfer_at : ℕ → M (TransportRuntime G S) TransferRecord
  unfolding find_entry
  transfer_at id t = (transfer_found (find_transfer id t.transfers), t)

  unfoldable pub set_transfer : ℕ → TransferRecord → M (TransportRuntime G S) (Unit {0})
  unfolding set_entry
  set_transfer id transfer =
      modify λ t. record t { transfers = set_entry (λ (a b : ℕ). a == b) id transfer t.transfers }

module _ {G S : Type 0} (env : Env G S) where
  unfoldable pub report_completion :
      TransferRecord → TransferCompletion → M (TransportRuntime G S) (Unit {0})
  unfolding event_correlation report
  report_completion transfer c = do
    t ← get
    when (enabled env t) do
      plain ← event_correlation env
      correlation ← pure (record plain { transfer = some c.transfer })
      report env correlation (
          TelemetryObservation.transfer (record {
            transition = end_transition c.outcome;
            bytes = transfer.total.bytes;
            hop = 0;
            reason = end_reason c;
          }))
      report env correlation (
          TelemetryObservation.counter (record {
            metric = transfer_terminal_total;
            labels = record { label = outcome; value = outcome_value c.outcome } ∷ [];
            amount = 1;
          }))

  -- The end of `record_terminal`.
  unfoldable pub complete_transfer :
      Option TransferCompletion → ℕ → TransferRecord → M (TransportRuntime G S) (Unit {0})
  unfolding set_transfer report_completion
  complete_transfer none id transfer = pure tt
  complete_transfer (some c) id transfer = do
    modify λ t. record t { completions = t.completions ++ c ∷ [] }
    set_transfer id (record transfer { completion = some c })
    report_completion transfer c

  unfoldable pub count_chunk : ChunkRecord → TransferRecord → M (TransportRuntime G S) (Unit {0})
  unfolding count_terminal set_transfer completion_due complete_transfer
  count_chunk entry transfer = do
    counted ← answer (count_terminal entry.state (traffic_of entry.chunk) transfer)
    set_transfer entry.chunk.transfer counted
    t ← get
    due ← answer (completion_due entry.chunk.transfer t.simulation.now counted)
    complete_transfer due entry.chunk.transfer counted

  unfoldable pub record_terminal : ChunkRecord → M (TransportRuntime G S) (Unit {0})
  unfolding transfer_at count_chunk
  record_terminal entry = do
    transfer ← transfer_at entry.chunk.transfer
    when (has_value transfer.completion) (throw (logic_error "transfer already completed"))
    count_chunk entry transfer
