-- ===== src/Transport/LinkQueue.antt =====
-- transport/link_queue.cpp: the finite first-in first-out queue of one directed link, with a chunk
-- in service and the others waiting.
pub mod Contents
pub mod Bounds
use nexus_lab.Prelude.{
  ℕ, ◌+◌, ◌-◌, ◌≡◌, Bool, true, false, not, ◌&&◌, ◌||◌, Option, none, some, List, [], ◌∷◌, ◌++◌,
  max, length, ltb, leb, ◌==◌, if◌then◌else◌, has_value,
}
use nexus_lab.Prelude.Except.{invalid_argument, Result, ok, err}
use nexus_lab.Prelude.State.{M}
use nexus_lab.Topology.Entities.{DirectedLinkId}

pub record DirectedLinkConfiguration : Type 0 where
  pub link : DirectedLinkId
  pub bandwidth : ℕ
  pub propagation_delay : ℕ
  pub waiting_buffer_capacity : ℕ
  pub marking_threshold : Option ℕ

pub record TransferChunk : Type 0 where
  pub transfer : ℕ
  pub id : ℕ
  pub bytes : ℕ
  pub hop_index : ℕ
  pub marked : Bool

pub data AdmissionDisposition : Type 0 where
  service_started queued dropped_buffer_full : AdmissionDisposition

pub record AdmissionResult : Type 0 where
  pub disposition : AdmissionDisposition
  pub marked_here : Bool

pub record ServiceTransition : Type 0 where
  pub completed : TransferChunk
  pub next_started : Option TransferChunk

pub record QueueSnapshot : Type 0 where
  pub waiting_bytes : ℕ
  pub waiting_chunks : ℕ
  pub maximum_waiting_bytes : ℕ
  pub maximum_waiting_chunks : ℕ
  pub busy : Bool

pub record QueueDrain : Type 0 where
  pub active : Option TransferChunk
  pub waiting : List TransferChunk

pub record DirectedLinkQueue : Type 0 where
  pub configuration : DirectedLinkConfiguration
  pub active : Option TransferChunk
  pub waiting : List TransferChunk
  pub waiting_bytes : ℕ
  pub maximum_waiting_bytes : ℕ
  pub maximum_waiting_chunks : ℕ

unfoldable pub validate_threshold : Option ℕ → ℕ → Result (Unit {0})
validate_threshold none capacity = ok tt
validate_threshold (some threshold) capacity =
    if threshold == 0
    then err (invalid_argument "marking threshold must be nonzero when enabled")
    else if ltb capacity threshold
    then err (invalid_argument "marking threshold exceeds waiting-buffer capacity")
    else ok tt

-- A direction is `a_to_b` or `b_to_a` by its type, so the switch on it never throws.
unfoldable pub validate_configuration : DirectedLinkConfiguration → Result (Unit {0})
unfolding validate_threshold
validate_configuration c =
    if c.bandwidth == 0
    then err (invalid_argument "directed-link bandwidth must be nonzero")
    else validate_threshold c.marking_threshold c.waiting_buffer_capacity

abbrev pub empty_queue : DirectedLinkConfiguration → DirectedLinkQueue
empty_queue c = record {
  configuration = c;
  active = none;
  waiting = [];
  waiting_bytes = 0;
  maximum_waiting_bytes = 0;
  maximum_waiting_chunks = 0;
}

-- The constructor.
unfoldable pub new_queue : DirectedLinkConfiguration → Result DirectedLinkQueue
new_queue c = elim (validate_configuration c) [ ok u ↦ ok (empty_queue c) | err e ↦ err e ]

unfoldable pub snapshot : DirectedLinkQueue → QueueSnapshot
snapshot q = record {
  waiting_bytes = q.waiting_bytes;
  waiting_chunks = length q.waiting;
  maximum_waiting_bytes = q.maximum_waiting_bytes;
  maximum_waiting_chunks = q.maximum_waiting_chunks;
  busy = has_value q.active;
}

unfoldable pub next_waiting : DirectedLinkQueue → Option TransferChunk
next_waiting q = elim q.waiting [ [] ↦ none | c ∷ cs ↦ some c ]

-- `threshold.has_value() && bytes >= *threshold`
abbrev pub reaches : ℕ → Option ℕ → Bool
reaches bytes none = false
reaches bytes (some threshold) = leb threshold bytes

-- A chunk joins the waiting ones.
unfoldable pub enqueue :
    TransferChunk → DirectedLinkQueue → Result AdmissionResult × DirectedLinkQueue
enqueue chunk q =
    let bytes = q.waiting_bytes + chunk.bytes in
    let marked_here = reaches bytes q.configuration.marking_threshold in
    let waiting = q.waiting ++ (record chunk { marked = chunk.marked || marked_here } ∷ []) in
    (
      ok (record { disposition = queued; marked_here = marked_here }),
      record q {
        waiting = waiting;
        waiting_bytes = bytes;
        maximum_waiting_bytes = max q.maximum_waiting_bytes bytes;
        maximum_waiting_chunks = max q.maximum_waiting_chunks (length waiting);
      },
    )

unfoldable pub admit : TransferChunk → M DirectedLinkQueue AdmissionResult
unfolding enqueue
admit chunk q =
    if chunk.bytes == 0
    then (err (invalid_argument "transfer chunk must contain nonzero bytes"), q)
    else if not (has_value q.active)
    then (
      ok (record { disposition = service_started; marked_here = false }),
      record q { active = some chunk },
    )
    else if ltb (q.configuration.waiting_buffer_capacity - q.waiting_bytes) chunk.bytes
    then (ok (record { disposition = dropped_buffer_full; marked_here = false }), q)
    else enqueue chunk q

-- The end of a service: the chunk that has waited longest, if any, is served next.
unfoldable pub start_next :
    TransferChunk → List TransferChunk → DirectedLinkQueue → ServiceTransition × DirectedLinkQueue
start_next completed [] q =
    (record { completed = completed; next_started = none }, record q { active = none })
start_next completed (next ∷ rest) q = (
  record { completed = completed; next_started = some next },
  record q { active = some next; waiting = rest; waiting_bytes = q.waiting_bytes - next.bytes },
)

unfoldable pub complete_active :
    Option TransferChunk → DirectedLinkQueue → Option ServiceTransition × DirectedLinkQueue
unfolding start_next
complete_active none q = (none, q)
complete_active (some completed) q =
    let (transition, q') = start_next completed q.waiting q in (some transition, q')

unfoldable pub complete_service : DirectedLinkQueue → Option ServiceTransition × DirectedLinkQueue
unfolding complete_active
complete_service q = complete_active q.active q

-- The loop that moves the waiting chunks out, the first one first.
unfoldable pub drain_waiting : List TransferChunk → List TransferChunk → List TransferChunk
drain_waiting drained [] = drained
drain_waiting drained (c ∷ cs) = drain_waiting (drained ++ (c ∷ [])) cs

unfoldable pub drain : DirectedLinkQueue → QueueDrain × DirectedLinkQueue
unfolding drain_waiting
drain q = (
  record { active = q.active; waiting = drain_waiting [] q.waiting },
  record q { active = none; waiting = []; waiting_bytes = 0 },
)
