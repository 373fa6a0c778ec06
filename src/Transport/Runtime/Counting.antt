-- ===== src/Transport/Runtime/Counting.antt =====
-- transport/progress.cpp: the counters of a transfer, and the sums that end it.
use nexus_lab.Prelude.{
  ℕ, ◌+◌, ◌-◌, ◌≤◌, ◌<◌, ltb, ltb→lt, u64_max, ◌≡◌, ◌≢◌, ◌↔◌, ◌⊎◌, refl, inl, inr, true, false,
  none, some, arith, ◌==◌, ==_iff, if◌then◌else◌, Bool-cases,
}
use nexus_lab.Prelude.Except.{Error, logic_error, overflow_error, ok, err}
use nexus_lab.Transport.Statistics.{TrafficCount, add_traffic}
use nexus_lab.Transport.LinkService.{traffic_of}
use nexus_lab.Transport.Runtime.{
  ChunkRecord, ChunkTransitState, registered, awaiting_arrival, admitted, delivered,
  dropped_buffer_full, dropped_link_down, TransferRecord, succeeded, failed, TransferCompletion,
}
use nexus_lab.Transport.LinkQueue.{TransferChunk}
use nexus_lab.Transport.Runtime.Moving.{is_final}
use nexus_lab.Transport.Runtime.Progress.{
  count_terminal, drops, completion_of, due_of_sum, due_of_drops, completion_due,
}

-- The completion accounts for the whole of a transfer, and succeeds if nothing was dropped.
pub record Accounts (total : TrafficCount) (c : TransferCompletion) : Type 0 where
  pub chunks :
      c.delivered.chunks + c.dropped_buffer_full.chunks + c.dropped_link_down.chunks ≡ total.chunks
  pub bytes :
      c.delivered.bytes + c.dropped_buffer_full.bytes + c.dropped_link_down.bytes ≡ total.bytes
  pub outcome :
      (c.outcome ≡ succeeded) ↔ (c.dropped_buffer_full.chunks + c.dropped_link_down.chunks ≡ 0)

-- The sum of two counts, and whether it stays within 64 bits.
abbrev pub sum_of : TrafficCount → TrafficCount → TrafficCount
sum_of left right = record { bytes = left.bytes + right.bytes; chunks = left.chunks + right.chunks }

abbrev pub Room : TrafficCount → TrafficCount → Type 0
Room left right = (right.bytes ≤ u64_max - left.bytes) × (right.chunks ≤ u64_max - left.chunks)

abbrev pub NoRoom : TrafficCount → TrafficCount → Type 0
NoRoom left right = (u64_max - left.bytes < right.bytes) ⊎ (u64_max - left.chunks < right.chunks)

add_traffic_cases :
    (left right : TrafficCount)
    → ((add_traffic left right ≡ ok (sum_of left right)) × Room left right)
      ⊎ (((e : Error) × (add_traffic left right ≡ err e)) × NoRoom left right)
unfolding add_traffic
add_traffic_cases left right = elim (Bool-cases (ltb (u64_max - left.bytes) right.bytes)) [
  | inl heavy ↦
      inr ((overflow_error "transport counter overflow", rw heavy refl), inl (ltb→lt _ _ heavy))
  | inr light ↦ elim (Bool-cases (ltb (u64_max - left.chunks) right.chunks)) [
    | inl many ↦ inr (
      (overflow_error "transport counter overflow", rw (light, many) refl),
      inr (ltb→lt _ _ many),
    )
    | inr few ↦ inl (rw (light, few) refl, (ground (arith, light), ground (arith, few)))
  ]
]

-- The counter of a transfer that a final state counts in, and the transfer with one more chunk there.
abbrev pub counter_of : ChunkTransitState → TransferRecord → TrafficCount
counter_of dropped_buffer_full transfer = transfer.dropped_buffer_full
counter_of dropped_link_down transfer = transfer.dropped_link_down
counter_of _ transfer = transfer.delivered

abbrev pub tallied : ChunkTransitState → TransferChunk → TransferRecord → TransferRecord
tallied delivered chunk transfer = record transfer {
  delivered = sum_of transfer.delivered (traffic_of chunk);
}
tallied dropped_buffer_full chunk transfer = record transfer {
  dropped_buffer_full = sum_of transfer.dropped_buffer_full (traffic_of chunk);
}
tallied dropped_link_down chunk transfer = record transfer {
  dropped_link_down = sum_of transfer.dropped_link_down (traffic_of chunk);
}
tallied _ chunk transfer = transfer

-- Why a chunk is not counted: its state is not final, or the counter has no room for it.
abbrev pub Uncounted : ChunkRecord → TransferRecord → Type 0
Uncounted entry transfer =
    (is_final entry.state ≡ false)
    ⊎ NoRoom (counter_of entry.state transfer) (traffic_of entry.chunk)

abbrev pub Counts : ChunkTransitState → TransferChunk → TransferRecord → Type 0
Counts state chunk transfer =
    ((count_terminal state (traffic_of chunk) transfer ≡ ok (tallied state chunk transfer))
      × (is_final state ≡ true)
      × Room (counter_of state transfer) (traffic_of chunk))
    ⊎ (((e : Error) × (count_terminal state (traffic_of chunk) transfer ≡ err e))
        × ((is_final state ≡ false) ⊎ NoRoom (counter_of state transfer) (traffic_of chunk)))

pub count_terminal_cases :
    (state : ChunkTransitState) (chunk : TransferChunk) (transfer : TransferRecord)
    → Counts state chunk transfer
unfolding count_terminal
count_terminal_cases delivered chunk transfer =
    elim (add_traffic_cases transfer.delivered (traffic_of chunk)) [
      | inl (good, room) ↦ inl (rw (good, count_terminal) refl, refl, room)
      | inr ((e, bad), full) ↦ inr ((e, rw (bad, count_terminal) refl), inr full)
    ]
count_terminal_cases dropped_buffer_full chunk transfer =
    elim (add_traffic_cases transfer.dropped_buffer_full (traffic_of chunk)) [
      | inl (good, room) ↦ inl (rw (good, count_terminal) refl, refl, room)
      | inr ((e, bad), full) ↦ inr ((e, rw (bad, count_terminal) refl), inr full)
    ]
count_terminal_cases dropped_link_down chunk transfer =
    elim (add_traffic_cases transfer.dropped_link_down (traffic_of chunk)) [
      | inl (good, room) ↦ inl (rw (good, count_terminal) refl, refl, room)
      | inr ((e, bad), full) ↦ inr ((e, rw (bad, count_terminal) refl), inr full)
    ]
count_terminal_cases registered chunk transfer = inr ((_, refl), inl refl)
count_terminal_cases awaiting_arrival chunk transfer = inr ((_, refl), inl refl)
count_terminal_cases admitted chunk transfer = inr ((_, refl), inl refl)

-- What was dropped of a transfer, and all that has ended.
abbrev pub lost_of : TransferRecord → TrafficCount
lost_of transfer = sum_of transfer.dropped_buffer_full transfer.dropped_link_down

abbrev pub ended_of : TransferRecord → TrafficCount
ended_of transfer = sum_of transfer.delivered (lost_of transfer)

-- Why the counts of a transfer cannot be settled: a sum has no room, or all chunks have ended, but
-- not all bytes.
abbrev pub Unsettled : TransferRecord → Type 0
Unsettled transfer =
    NoRoom transfer.dropped_buffer_full transfer.dropped_link_down
    ⊎ NoRoom transfer.delivered (lost_of transfer)
    ⊎ (((ended_of transfer).chunks ≡ transfer.total.chunks)
        × ((ended_of transfer).bytes ≢ transfer.total.bytes))

abbrev pub SettleAnswers : ℕ → ℕ → TransferRecord → Type 0
SettleAnswers id now transfer =
    (((e : Error) × (completion_due id now transfer ≡ err e)) × Unsettled transfer)
    ⊎ ((completion_due id now transfer ≡ ok none)
        × ((ended_of transfer).chunks ≢ transfer.total.chunks))
    ⊎ ((completion_due id now transfer
          ≡ ok (some (completion_of id (lost_of transfer).chunks now transfer)))
        × ((ended_of transfer).chunks ≡ transfer.total.chunks)
        × ((ended_of transfer).bytes ≡ transfer.total.bytes))

pub completion_due_cases : (id now : ℕ) (transfer : TransferRecord) → SettleAnswers id now transfer
unfolding completion_due drops
completion_due_cases id now transfer =
    elim (add_traffic_cases transfer.dropped_buffer_full transfer.dropped_link_down) [
      | inr ((e, bad), full) ↦ inl ((e, rw (bad, due_of_drops) refl), inl full)
      | inl (lost, _) ↦ elim (add_traffic_cases transfer.delivered (lost_of transfer)) [
        | inr ((e, bad), full) ↦
            inl ((e, rw (lost, due_of_drops, bad, due_of_sum) refl), inr (inl full))
        | inl (all, _) ↦ elim (Bool-cases ((ended_of transfer).chunks == transfer.total.chunks)) [
          | inr more ↦
              inr (inl (rw (lost, due_of_drops, all, due_of_sum, more) refl, ground (arith, more)))
          | inl done ↦
              let whole = (==_iff (ended_of transfer).chunks transfer.total.chunks).0 done in
              elim (Bool-cases ((ended_of transfer).bytes == transfer.total.bytes)) [
                | inr wrong ↦ inl (
                  (
                    logic_error "terminal transfer byte accounting mismatch",
                    rw (lost, due_of_drops, all, due_of_sum, done, wrong) refl,
                  ),
                  inr (inr (whole, ground (arith, wrong))),
                )
                | inl right ↦ inr (
                    inr (
                      rw (lost, due_of_drops, all, due_of_sum, done, right) refl,
                      whole,
                      (==_iff (ended_of transfer).bytes transfer.total.bytes).0 right,
                    ))
              ]
        ]
      ]
    ]

outcome_of : (n : ℕ) → ((if n == 0 then succeeded else failed) ≡ succeeded) ↔ (n ≡ 0)
outcome_of n = ground arith

pub completion_of-Accounts :
    (id now : ℕ) (transfer : TransferRecord)
    → (ended_of transfer).chunks ≡ transfer.total.chunks
    → (ended_of transfer).bytes ≡ transfer.total.bytes
    → Accounts transfer.total (completion_of id (lost_of transfer).chunks now transfer)
completion_of-Accounts id now transfer chunks bytes = record {
  chunks = omega (arith, chunks);
  bytes = omega (arith, bytes);
  outcome = outcome_of (lost_of transfer).chunks;
}
