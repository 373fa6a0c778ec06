-- ===== src/Transport/Runtime/Completing.antt =====
-- transport/progress.cpp: when `record_terminal` completes a transfer, and what the completion accounts for.
use nexus_lab.Prelude.{ℕ, ◌≡◌, ◌≢◌, ◌⊎◌, true, false, none, some, List, [], ◌∷◌, ◌++◌, has_value}
use nexus_lab.Prelude.Except.{Error, Result, ok, err}
use nexus_lab.Prelude.State.{M, and_then}
use nexus_lab.Telemetry.Records.{Correlation, TelemetryObservation}
use nexus_lab.Sim.Env.{Env}
use nexus_lab.Transport.LinkService.{traffic_of}
use nexus_lab.Transport.Runtime.{
  TransportRuntime, ChunkRecord, TransferRecord, TransferCompletion, find_transfer,
}
use nexus_lab.Transport.Runtime.Moving.{is_final}
use nexus_lab.Transport.Runtime.Reports.{report}
use nexus_lab.Transport.Runtime.Progress.{completion_due, set_transfer, complete_transfer}
use nexus_lab.Transport.Runtime.Counting.{
  Accounts, Room, counter_of, tallied, Uncounted, ended_of, Unsettled,
}

-- The completions and the transfers of a runtime.
abbrev Lists : Type 0
Lists = List TransferCompletion × List (ℕ × TransferRecord)

abbrev lists : {G S : Type 0} → TransportRuntime G S → Lists
lists t = (t.completions, t.transfers)

-- After the operation the completions and the transfers are `l`.
record Listed {G S A : Type 0} (l : Lists) (x : Result A × TransportRuntime G S) : Type 0 where
  lists : lists x.1 ≡ l

module _ {G S : Type 0} {l : Lists} (env : Env G S) (t : TransportRuntime G S)
    (h : lists t ≡ l) where
  report-Listed : (k : Correlation) (o : TelemetryObservation) → Listed l (report env k o t)
  unfolding report
  report-Listed k o = record { lists = h }

-- The end of `count_chunk`, behind the count.
abbrev settle_counted :
    {G S : Type 0} → Env G S → ChunkRecord → TransferRecord → M (TransportRuntime G S) (Unit {0})
settle_counted env entry counted t =
    let u = (set_transfer entry.chunk.transfer counted t).1 in
    and_then (completion_due entry.chunk.transfer u.simulation.now counted, u)
      (λ due v. complete_transfer env due entry.chunk.transfer counted v)

-- The completion of the chunk's transfer, whose counts are those of `counted`.
pub record Completes {G S : Type 0} (entry : ChunkRecord) (counted : TransferRecord)
    (t : TransportRuntime G S) (c : TransferCompletion) : Type 0 where
  pub named : c.transfer ≡ entry.chunk.transfer
  pub timed : c.timestamp ≡ t.simulation.now
  pub delivered : c.delivered ≡ counted.delivered
  pub buffer_full : c.dropped_buffer_full ≡ counted.dropped_buffer_full
  pub link_down : c.dropped_link_down ≡ counted.dropped_link_down
  pub whole : Accounts counted.total c

-- What follows when the chunk is counted in `counted`.
abbrev pub Settles :
    {G S : Type 0}
    → ChunkRecord
    → TransferRecord
    → TransportRuntime G S
    → Result (Unit {0}) × TransportRuntime G S
    → Type 0
Settles entry counted t (answer, u) =
    ((e : Error) × (answer ≡ err e)
      × (u ≡ (set_transfer entry.chunk.transfer counted t).1)
      × Unsettled counted)
    ⊎ ((answer ≡ ok tt)
        × (u ≡ (set_transfer entry.chunk.transfer counted t).1)
        × ((ended_of counted).chunks ≢ counted.total.chunks))
    ⊎ ((c : TransferCompletion) × (u.completions ≡ t.completions ++ c ∷ [])
        × (u.transfers
            ≡ (set_transfer entry.chunk.transfer (record counted { completion = some c })
                (set_transfer entry.chunk.transfer counted t).1).1.transfers)
        × Completes entry counted t c)

abbrev pub TerminalAnswers :
    {G S : Type 0}
    → ChunkRecord
    → TransportRuntime G S
    → Result (Unit {0}) × TransportRuntime G S
    → Type 0
TerminalAnswers entry t (answer, u) =
    ((e : Error) × (answer ≡ err e)
      × (u ≡ t)
      × ((find_transfer entry.chunk.transfer t.transfers ≡ none)
          ⊎ ((old : TransferRecord) × (find_transfer entry.chunk.transfer t.transfers ≡ some old)
              × ((has_value old.completion ≡ true) ⊎ Uncounted entry old))))
    ⊎ ((old : TransferRecord) × (find_transfer entry.chunk.transfer t.transfers ≡ some old)
        × (has_value old.completion ≡ false)
        × (is_final entry.state ≡ true)
        × Room (counter_of entry.state old) (traffic_of entry.chunk)
        × Settles entry (tallied entry.state entry.chunk old) t (answer, u))
