-- ===== src/Transport/Runtime/Submission.antt =====
-- transport/runtime.cpp: how chunks and transfers enter a runtime, and of progress.cpp what it tells of
-- them.
use nexus_lab.Prelude.{
  ℕ, zero, suc, ◌+◌, ◌/◌, ◌%◌, Bool, true, false, not, ◌||◌, Option, none, some, List, [], ◌∷◌,
  ◌++◌, length, ltb, ◌==◌, if◌then◌else◌, has_value, u64_mod,
}
use nexus_lab.Prelude.Except.{invalid_argument, logic_error, overflow_error, Result, ok, err}
use nexus_lab.Prelude.State.{M, ◌>>=◌, ◌>>◌, pure, get, when, answer, require}
use nexus_lab.Topology.Entities.{DirectedLinkId}
use nexus_lab.Topology.Resources.{NodeId}
use nexus_lab.Topology.Graph.{TopologyGraph}
use nexus_lab.Telemetry.Records.{TelemetryObservation, no_reason}
use nexus_lab.Telemetry.Records
use nexus_lab.Sim.Env.{Env}
use nexus_lab.Sim.Simulation.{Simulation}
use nexus_lab.Transport.Ids
use nexus_lab.Transport.Ids.{IdGenerator, can_generate, advance_past}
use nexus_lab.Transport.Statistics.{TrafficCount, no_traffic, add_traffic}
use nexus_lab.Transport.LinkQueue.{DirectedLinkConfiguration, TransferChunk}
use nexus_lab.Transport.LinkService.{traffic_of}
use nexus_lab.Transport.Runtime.{
  TransportRuntime, TransportLimits, ChunkRecord, ChunkTransitState, registered, awaiting_arrival,
  TransferRecord, TransferCompletion, no_transfer, find_entry, set_entry, find_chunk, find_transfer,
  emplace_services, validate_capacity, validate_route, validate_timing,
}
use nexus_lab.Transport.Runtime.Reports.{enabled, event_correlation, report}
use nexus_lab.Transport.Runtime.Progress.{require_chunk, set_chunk, transfer_at, set_transfer}
use nexus_lab.Transport.Runtime.Completion.{arrival_spec, schedule_event}

pub record RoutedChunk : Type 0 where
  pub chunk : TransferChunk
  pub route : List DirectedLinkId

pub record TransferRequest : Type 0 where
  pub source : NodeId
  pub destination : NodeId
  pub bytes : ℕ
  pub maximum_chunk_bytes : ℕ
  pub route : List DirectedLinkId

pub record SubmittedChunk : Type 0 where
  pub id : ℕ
  pub bytes : ℕ

pub record SubmittedTransfer : Type 0 where
  pub id : ℕ
  pub chunks : List SubmittedChunk

pub record ChunkTransitSnapshot : Type 0 where
  pub state : ChunkTransitState
  pub hop_index : ℕ
  pub marked : Bool

abbrev pub traffic_so_far : Option TransferRecord → TrafficCount
traffic_so_far none = no_traffic
traffic_so_far (some transfer) = transfer.total

abbrev pub is_sealed : Option TransferRecord → Bool
is_sealed none = false
is_sealed (some transfer) = has_value transfer.started_at

abbrev pub with_chunk : ℕ → TrafficCount → TransferRecord → TransferRecord
with_chunk id total transfer = record transfer {
  chunks = transfer.chunks ++ id ∷ [];
  total = total;
}

-- `transfers_[transfer]`, which makes a record if none is there, and the writes to it.
abbrev pub append_to :
    ℕ
    → ℕ
    → TrafficCount
    → Option TransferRecord
    → List (ℕ × TransferRecord)
    → List (ℕ × TransferRecord)
append_to transfer id total none transfers = (transfer, with_chunk id total no_transfer) ∷ transfers
append_to transfer id total (some old) transfers =
    set_entry (λ (a b : ℕ). a == b) transfer (with_chunk id total old) transfers

abbrev pub new_entry : RoutedChunk → ChunkRecord
new_entry routed = record {
  chunk = routed.chunk;
  route = routed.route;
  state = registered;
  hop_index = 0;
  scheduled_arrival = none;
}

abbrev pub is_registered : ChunkTransitState → Bool
is_registered registered = true
is_registered _ = false

-- The record of a chunk after `schedule_initial_arrival`.
abbrev pub scheduled_entry : ℕ → ChunkRecord → ChunkRecord
scheduled_entry event entry = record entry {
  state = awaiting_arrival;
  scheduled_arrival = some event;
}

-- The number of chunks, and the bytes of a chunk by its ordinal.
abbrev pub count_chunks : ℕ → ℕ → ℕ
count_chunks bytes maximum = bytes / maximum + (if bytes % maximum == 0 then 0 else 1)

abbrev pub ordinal_bytes : TransferRequest → ℕ → ℕ
ordinal_bytes request ordinal =
    if ltb ordinal (request.bytes / request.maximum_chunk_bytes)
    then request.maximum_chunk_bytes
    else request.bytes % request.maximum_chunk_bytes

abbrev pub routed_chunk : TransferRequest → ℕ → ℕ → ℕ → RoutedChunk
routed_chunk request transfer ordinal chunk = record {
  chunk = record {
    transfer = transfer;
    id = chunk;
    bytes = ordinal_bytes request ordinal;
    hop_index = 0;
    marked = false;
  };
  route = request.route;
}

abbrev pub submitted_chunk : TransferRequest → ℕ → ℕ → SubmittedChunk
submitted_chunk request ordinal chunk = record { id = chunk; bytes = ordinal_bytes request ordinal }

module _ {G S : Type 0} where
  -- The members before the constructor's body; `has_sink` says whether it is given a telemetry sink.
  abbrev pub bare_runtime :
      TopologyGraph → TransportLimits → Bool → Simulation G S → TransportRuntime G S
  bare_runtime topology limits has_sink s = record {
    topology = topology;
    simulation = s;
    limits = limits;
    has_sink = has_sink;
    route_entries = 0;
    transfers = [];
    completions = [];
    transfer_ids = record { next_value = 0; exhausted = false };
    chunk_ids = record { next_value = 0; exhausted = false };
    services = [];
    reported_busy_time_ns = [];
    chunks = [];
  }

  -- The constructor, on the members of `bare_runtime`.
  unfoldable pub new_runtime : List DirectedLinkConfiguration → M (TransportRuntime G S) (Unit {0})
  unfolding emplace_services
  new_runtime configurations t =
      if t.limits.maximum_chunks == 0
        || t.limits.maximum_route_entries == 0
        || t.limits.maximum_route_hops == 0
      then (err (invalid_argument "transport limits must be positive"), t)
      else emplace_services configurations t

  -- The tests of `register_chunk`; the answer is the new total of the transfer.
  unfoldable pub registration : RoutedChunk → TransportRuntime G S → Result TrafficCount
  unfolding validate_route validate_capacity validate_timing find_entry add_traffic
  registration routed t =
      if routed.chunk.bytes == 0
      then err (invalid_argument "routed chunk must contain nonzero bytes")
      else if not (routed.chunk.hop_index == 0)
      then err (invalid_argument "new routed chunk must begin at hop zero")
      else elim (validate_route routed.route none none t) [
        | err e ↦ err e
        | ok valid ↦ elim (validate_capacity 1 (length routed.route) t) [
          | err e ↦ err e
          | ok fits ↦ elim (validate_timing routed.chunk.bytes routed.route 0 t) [
            | err e ↦ err e
            | ok timed ↦
                if has_value (find_chunk routed.chunk.id t.chunks)
                then err (invalid_argument "duplicate routed chunk identifier")
                else if is_sealed (find_transfer routed.chunk.transfer t.transfers)
                then err (invalid_argument "cannot append chunks to a sealed transfer")
                else add_traffic (traffic_so_far (find_transfer routed.chunk.transfer t.transfers))
                    (traffic_of routed.chunk)
          ]
        ]
      ]

  -- The writes of `register_chunk`.
  unfoldable pub enter_chunk :
      RoutedChunk → TrafficCount → TransportRuntime G S → TransportRuntime G S
  unfolding find_entry set_entry advance_past
  enter_chunk routed total t = record t {
    chunks = (routed.chunk.id, new_entry routed) ∷ t.chunks;
    transfers =
        append_to routed.chunk.transfer routed.chunk.id total
          (find_transfer routed.chunk.transfer t.transfers) t.transfers;
    route_entries = (t.route_entries + length routed.route) % u64_mod;
    transfer_ids = advance_past routed.chunk.transfer t.transfer_ids;
    chunk_ids = advance_past routed.chunk.id t.chunk_ids;
  }

  unfoldable pub register_chunk : RoutedChunk → M (TransportRuntime G S) (Unit {0})
  unfolding registration enter_chunk
  register_chunk routed t = elim (registration routed t) [
    | err e ↦ (err e, t)
    | ok total ↦ (ok tt, enter_chunk routed total t)
  ]

  abbrev pub in_ids :
      TransportRuntime G S
      → (IdGenerator → TransportRuntime G S)
      → Result ℕ × IdGenerator
      → Result ℕ × TransportRuntime G S
  in_ids t put (id, ids) = (id, put ids)

  -- `transfer_ids_.next()` and `chunk_ids_.next()`
  unfoldable pub next_transfer : M (TransportRuntime G S) ℕ
  next_transfer t = in_ids t (λ ids. record t { transfer_ids = ids }) (Ids.next t.transfer_ids)

  unfoldable pub next_chunk : M (TransportRuntime G S) ℕ
  next_chunk t = in_ids t (λ ids. record t { chunk_ids = ids }) (Ids.next t.chunk_ids)

  -- A chunk of the first loop of `submit_transfer`.
  unfoldable pub submit_chunk : TransferRequest → ℕ → ℕ → M (TransportRuntime G S) SubmittedChunk
  unfolding next_chunk register_chunk
  submit_chunk request transfer ordinal = do
    chunk ← next_chunk
    register_chunk (routed_chunk request transfer ordinal chunk)
    pure (submitted_chunk request ordinal chunk)

  -- The loop, for the ordinals from `ordinal` on that are left.
  unfoldable pub submit_chunks :
      TransferRequest → ℕ → ℕ → ℕ → M (TransportRuntime G S) (List SubmittedChunk)
  unfolding submit_chunk
  submit_chunks request transfer ordinal zero = pure []
  submit_chunks request transfer ordinal (suc left) = do
    first ← submit_chunk request transfer ordinal
    rest ← submit_chunks request transfer (ordinal + 1) left
    pure (first ∷ rest)

  -- The tests of `submit_transfer`.
  unfoldable pub submission : TransferRequest → TransportRuntime G S → Result (Unit {0})
  unfolding validate_route validate_capacity validate_timing can_generate
  submission request t =
      if request.bytes == 0
      then err (invalid_argument "transfer byte count must be nonzero")
      else if request.maximum_chunk_bytes == 0
      then err (invalid_argument "maximum chunk byte count must be nonzero")
      else elim (validate_route request.route (some request.source) (some request.destination) t) [
        | err e ↦ err e
        | ok valid ↦
            if not (can_generate 1 t.transfer_ids)
              || not (
                  can_generate (count_chunks request.bytes request.maximum_chunk_bytes) t.chunk_ids)
            then err (overflow_error "transport ID sequence cannot represent submitted transfer")
            else elim (validate_capacity (count_chunks request.bytes request.maximum_chunk_bytes)
                (length request.route) t) [
                  | err e ↦ err e
                  | ok fits ↦
                      elim (if request.bytes / request.maximum_chunk_bytes == 0
                        then ok tt
                        else validate_timing request.maximum_chunk_bytes request.route
                            t.simulation.now t) [
                              | err e ↦ err e
                              | ok timed ↦
                                  if request.bytes % request.maximum_chunk_bytes == 0
                                  then ok tt
                                  else validate_timing (request.bytes % request.maximum_chunk_bytes)
                                      request.route t.simulation.now t
                            ]
                ]
      ]

  unfoldable pub chunk_snapshot : ℕ → TransportRuntime G S → Option ChunkTransitSnapshot
  unfolding find_entry
  chunk_snapshot id t = elim (find_chunk id t.chunks) [
    | none ↦ none
    | some entry ↦
        some
          (record { state = entry.state; hop_index = entry.hop_index; marked = entry.chunk.marked })
  ]

  unfoldable pub take_completed_transfers : M (TransportRuntime G S) (List TransferCompletion)
  take_completed_transfers t = (ok t.completions, record t { completions = [] })

module _ {G S : Type 0} (env : Env G S) where
  -- The report of a transfer that is submitted.
  unfoldable pub report_submission : ℕ → TransferRecord → M (TransportRuntime G S) (Unit {0})
  unfolding event_correlation report
  report_submission id transfer = do
    t ← get
    when (enabled env t) do
      correlation ← event_correlation env
      report env (record correlation { transfer = some id })
          (TelemetryObservation.transfer (record {
            transition = Records.TransferTransition.submitted;
            bytes = transfer.total.bytes;
            hop = 0;
            reason = no_reason;
          }))

  -- The first arrival of a transfer seals it.
  unfoldable pub start_transfer : ℕ → TransferRecord → M (TransportRuntime G S) (Unit {0})
  unfolding set_transfer report_submission
  start_transfer id transfer = do
    t ← get
    when (not (has_value transfer.started_at)) do
      set_transfer id (record transfer { started_at = some t.simulation.now })
      report_submission id transfer

  unfoldable pub schedule_initial_arrival : ℕ → M (TransportRuntime G S) ℕ
  unfolding require_chunk validate_timing schedule_event set_chunk transfer_at start_transfer
  schedule_initial_arrival chunk = do
    entry ← require_chunk chunk
    require (is_registered entry.state)
        (logic_error "routed chunk initial arrival is already scheduled")
    t ← get
    answer (validate_timing entry.chunk.bytes entry.route t.simulation.now t)
    event ← schedule_event env (arrival_spec t.simulation.now chunk 0)
    set_chunk chunk (scheduled_entry event entry)
    transfer ← transfer_at entry.chunk.transfer
    start_transfer entry.chunk.transfer transfer
    pure event

  unfoldable pub schedule_all : List SubmittedChunk → M (TransportRuntime G S) (Unit {0})
  unfolding schedule_initial_arrival
  schedule_all [] = pure tt
  schedule_all (chunk ∷ chunks) = do event ← schedule_initial_arrival chunk.id; schedule_all chunks

  unfoldable pub submit_transfer : TransferRequest → M (TransportRuntime G S) SubmittedTransfer
  unfolding submission next_transfer submit_chunks schedule_all
  submit_transfer request = do
    t ← get
    answer (submission request t)
    transfer ← next_transfer
    chunks ←
        submit_chunks request transfer 0 (count_chunks request.bytes request.maximum_chunk_bytes)
    schedule_all chunks
    pure (record { id = transfer; chunks = chunks })
