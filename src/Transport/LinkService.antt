-- ===== src/Transport/LinkService.antt =====
-- transport/link_service.hpp and link_service.cpp: a directed link in a running simulation. It
-- schedules the completion of the chunk in service, and counts the traffic.
pub mod Count
pub mod Conservation
pub mod Operations
use nexus_lab.Prelude.{
  ℕ, ◌+◌, ◌-◌, ◌<◌, Bool, true, false, not, ◌&&◌, ◌||◌, Option, none, some, ltb, leb, ◌==◌,
  if◌then◌else◌, has_value,
}
use nexus_lab.Prelude.Except.{Error, invalid_argument, logic_error, overflow_error, Result, ok, err}
use nexus_lab.Prelude.State.{M}
use nexus_lab.Topology.Entities.{LinkDirection, direction_eq}
use nexus_lab.Sim.Time.{checked_add, checked_difference}
use nexus_lab.Sim.Event.{EventSpec, EventPayload, TransmissionCompleteEvent, control}
use nexus_lab.Sim.Env.{Env}
use nexus_lab.Sim.Simulation.{Simulation}
use nexus_lab.Sim.Context
use nexus_lab.Sim.Context.{schedule, current_event_id}
use nexus_lab.Transport.Statistics.{TrafficCount, add_traffic, LinkStatistics, no_statistics}
use nexus_lab.Transport.Timing.{serialization_delay}
use nexus_lab.Transport.LinkQueue
use nexus_lab.Transport.LinkService.Count
use nexus_lab.Transport.LinkQueue.{
  DirectedLinkConfiguration, TransferChunk, AdmissionResult, ServiceTransition, QueueDrain,
  DirectedLinkQueue, new_queue, next_waiting, reaches,
}

pub record DirectedLinkService : Type 0 where
  pub queue : DirectedLinkQueue
  pub scheduled_completion : Option ℕ
  pub statistics : LinkStatistics
  pub busy_since : Option ℕ

-- The constructor.
unfoldable pub new_service : DirectedLinkConfiguration → Result DirectedLinkService
new_service c = elim (new_queue c) [
  | ok q ↦ ok (record {
    queue = q;
    scheduled_completion = none;
    statistics = no_statistics;
    busy_since = none;
  })
  | err e ↦ err e
]

-- Whether the propagation that follows `time` ends in the range of simulated time.
abbrev pub arrival_checked : DirectedLinkConfiguration → ℕ → Result ℕ
arrival_checked c time =
    if has_value (checked_add time c.propagation_delay)
    then ok time
    else err (overflow_error "propagation arrival exceeds simulated-time range")

abbrev pub time_after : DirectedLinkConfiguration → ℕ → Option ℕ → Result ℕ
time_after c now none = err (overflow_error "serialization delay exceeds simulated-time range")
time_after c now (some delay) = elim (checked_add now delay) [
  | none ↦ err (overflow_error "serialization completion exceeds simulated-time range")
  | some time ↦ arrival_checked c time
]

unfoldable pub completion_time : TransferChunk → DirectedLinkConfiguration → ℕ → Result ℕ
completion_time chunk c now = time_after c now (serialization_delay chunk.bytes c.bandwidth)

abbrev pub traffic_of : TransferChunk → TrafficCount
traffic_of chunk = record { bytes = chunk.bytes; chunks = 1 }

-- The busy time with the service since `since`.
abbrev pub add_busy : ℕ → Option ℕ → LinkStatistics → Result LinkStatistics
add_busy now none t = ok t
add_busy now (some since) t = elim (checked_difference now since) [
  | none ↦ err (invalid_argument "statistics time precedes active service")
  | some elapsed ↦ elim (checked_add t.busy_time elapsed) [
    | none ↦ err (overflow_error "serializer busy time overflow")
    | some total ↦ ok (record t { busy_time = total })
  ]
]

unfoldable pub statistics_at : ℕ → DirectedLinkService → Result LinkStatistics
statistics_at now v = add_busy now v.busy_since v.statistics

abbrev pub is_idle : DirectedLinkService → Bool
is_idle v = not (has_value v.queue.active)

-- The counters that `admit` moves behind `enqueued`.
abbrev pub count_accepted :
    TransferChunk → DirectedLinkService → LinkStatistics → Result LinkStatistics
count_accepted chunk v t =
    if is_idle v
    then Count.start (traffic_of chunk) t
    else if reaches (v.queue.waiting_bytes + chunk.bytes) v.queue.configuration.marking_threshold
    then Count.mark (traffic_of chunk) t
    else ok t

-- `next` of `admit`.
unfoldable pub admission_statistics : TransferChunk → DirectedLinkService → Result LinkStatistics
admission_statistics chunk v =
    if not (is_idle v)
      && ltb (v.queue.configuration.waiting_buffer_capacity - v.queue.waiting_bytes) chunk.bytes
    then Count.drop_full (traffic_of chunk) v.statistics
    else elim (Count.enqueue (traffic_of chunk) v.statistics) [
      | ok t ↦ count_accepted chunk v t
      | err e ↦ err e
    ]

abbrev pub completion_event : DirectedLinkConfiguration → TransferChunk → TransmissionCompleteEvent
completion_event c chunk = record {
  link = c.link.link;
  chunk = chunk.id;
  hop_index = chunk.hop_index;
  direction = c.link.direction;
}

abbrev pub completion_spec : DirectedLinkConfiguration → TransferChunk → ℕ → EventSpec
completion_spec c chunk time = record {
  timestamp = time;
  priority = control;
  payload = EventPayload.transmission_complete (completion_event c chunk);
}

-- Whether the event is the completion of the chunk in service.
abbrev pub matches_active : TransmissionCompleteEvent → DirectedLinkQueue → TransferChunk → Bool
matches_active e q active =
    e.link == q.configuration.link.link
    && direction_eq e.direction q.configuration.link.direction
    && e.chunk == active.id
    && e.hop_index == active.hop_index

-- What an operation on the service answers, with the service and the simulation behind it.
abbrev pub Outcome : Type 0 → Type 0 → Type 0 → Type 0
Outcome G S A = Result A × DirectedLinkService × Simulation G S

-- `dropped` of `reconcile_down`: the traffic of the waiting chunks, and of the one in service.
abbrev pub waiting_traffic : DirectedLinkQueue → TrafficCount
waiting_traffic q = record {
  bytes = (LinkQueue.snapshot q).waiting_bytes;
  chunks = (LinkQueue.snapshot q).waiting_chunks;
}

unfoldable pub drained_traffic : Option TransferChunk → DirectedLinkQueue → Result TrafficCount
drained_traffic none q = ok (waiting_traffic q)
drained_traffic (some active) q = add_traffic (waiting_traffic q) (traffic_of active)

unfoldable pub record_link_down :
    TransferChunk → DirectedLinkService → Result (Unit {0}) × DirectedLinkService
record_link_down chunk v = elim (Count.drop_down (traffic_of chunk) v.statistics) [
  | ok t ↦ (ok tt, record v { statistics = t })
  | err e ↦ (err e, v)
]

module _ {G S : Type 0} where
  -- The end of `admit`: the chunk enters the queue, and the new counters are kept.
  unfoldable pub admitted :
      TransferChunk
      → LinkStatistics
      → Option ℕ
      → DirectedLinkService
      → ℕ
      → Simulation G S
      → Outcome G S AdmissionResult
  admitted chunk next completion v now s =
      let (answer, queue) = LinkQueue.admit chunk v.queue in
      elim answer [
        | err e ↦ (err e, record v { queue = queue }, s)
        | ok r ↦ (
          ok r,
          if is_idle v
              then record {
                queue = queue;
                statistics = next;
                scheduled_completion = completion;
                busy_since = some now;
              }
              else record v { queue = queue; statistics = next },
          s,
        )
      ]

  -- The end of `handle_completion`.
  unfoldable pub completed :
      LinkStatistics
      → Option ℕ
      → DirectedLinkService
      → Simulation G S
      → Outcome G S ServiceTransition
  completed next completion v s =
      let (answer, queue) = LinkQueue.complete_service v.queue in
      elim answer [
        | none ↦ (
          err (logic_error "active service disappeared before completion"),
          record v { queue = queue },
          s,
        )
        | some transition ↦ (
          ok transition,
          record {
            queue = queue;
            statistics = next;
            scheduled_completion = completion;
            busy_since = if has_value completion then some s.now else none;
          },
          s,
        )
      ]

  -- The end of `reconcile_down`.
  unfoldable pub reconciled :
      LinkStatistics → DirectedLinkService → Simulation G S → Outcome G S QueueDrain
  reconciled next v s =
      let (drained, queue) = LinkQueue.drain v.queue in
      (
        ok drained,
        record { queue = queue; statistics = next; scheduled_completion = none; busy_since = none },
        s,
      )

module _ {G S : Type 0} (env : Env G S) where
  unfoldable pub schedule_completion :
      TransferChunk → DirectedLinkConfiguration → M (Simulation G S) ℕ
  schedule_completion chunk c s = elim (completion_time chunk c s.now) [
    | ok time ↦ schedule env (completion_spec c chunk time) s
    | err e ↦ (err e, s)
  ]

  -- `admit` behind the call of `schedule_completion` for an idle link.
  unfoldable pub admit_scheduled :
      TransferChunk
      → LinkStatistics
      → DirectedLinkService
      → ℕ
      → Result ℕ × Simulation G S
      → Outcome G S AdmissionResult
  admit_scheduled chunk next v now (ok id, s) = admitted chunk next (some id) v now s
  admit_scheduled chunk next v now (err e, s) = (err e, v, s)

  unfoldable pub admit_counted :
      TransferChunk
      → LinkStatistics
      → DirectedLinkService
      → Simulation G S
      → Outcome G S AdmissionResult
  admit_counted chunk next v s =
      if is_idle v
      then admit_scheduled chunk next v s.now (schedule_completion chunk v.queue.configuration s)
      else admitted chunk next none v s.now s

  unfoldable pub admit :
      TransferChunk → DirectedLinkService → Simulation G S → Outcome G S AdmissionResult
  admit chunk v s =
      if chunk.bytes == 0
      then (err (invalid_argument "transfer chunk must contain nonzero bytes"), v, s)
      else elim (completion_time chunk v.queue.configuration s.now) [
        | err e ↦ (err e, v, s)
        | ok time ↦ elim (admission_statistics chunk v) [
          | err e ↦ (err e, v, s)
          | ok next ↦ admit_counted chunk next v s
        ]
      ]

  unfoldable pub complete_scheduled :
      LinkStatistics
      → DirectedLinkService
      → Result ℕ × Simulation G S
      → Outcome G S ServiceTransition
  complete_scheduled next v (ok id, s) = completed next (some id) v s
  complete_scheduled next v (err e, s) = (err e, v, s)

  -- `handle_completion` for a waiting chunk that is served next.
  unfoldable pub complete_next :
      LinkStatistics
      → Option TransferChunk
      → DirectedLinkService
      → Simulation G S
      → Outcome G S ServiceTransition
  complete_next next none v s = completed next none v s
  complete_next next (some waiting) v s = elim (Count.start (traffic_of waiting) next) [
    | err e ↦ (err e, v, s)
    | ok next' ↦ complete_scheduled next' v (schedule_completion waiting v.queue.configuration s)
  ]

  -- `handle_completion` behind its tests of the event.
  unfoldable pub complete_matched :
      TransferChunk → DirectedLinkService → Simulation G S → Outcome G S ServiceTransition
  complete_matched active v s = elim (statistics_at s.now v) [
    | err e ↦ (err e, v, s)
    | ok t ↦ elim (Count.complete (traffic_of active) t) [
      | err e ↦ (err e, v, s)
      | ok next ↦ complete_next next (next_waiting v.queue) v s
    ]
  ]

  abbrev pub unmatched : Error
  unmatched = logic_error "transmission-completion event does not match active service"

  -- `handle_completion` for the chunk in service, if there is one.
  unfoldable pub complete_expected :
      TransmissionCompleteEvent
      → Option TransferChunk
      → DirectedLinkService
      → Simulation G S
      → Outcome G S ServiceTransition
  complete_expected e none v s = (err unmatched, v, s)
  complete_expected e (some active) v s =
      if matches_active e v.queue active then complete_matched active v s else (err unmatched, v, s)

  abbrev pub unexpected : Error
  unexpected = logic_error "unexpected transmission-completion event"

  unfoldable pub complete_current :
      TransmissionCompleteEvent
      → Option ℕ
      → Result ℕ
      → DirectedLinkService
      → Simulation G S
      → Outcome G S ServiceTransition
  complete_current e none current v s = (err unexpected, v, s)
  complete_current e (some scheduled) (err x) v s = (err x, v, s)
  complete_current e (some scheduled) (ok current) v s =
      if scheduled == current
      then complete_expected e v.queue.active v s
      else (err unexpected, v, s)

  unfoldable pub handle_completion :
      TransmissionCompleteEvent
      → DirectedLinkService
      → Simulation G S
      → Outcome G S ServiceTransition
  handle_completion e v s = complete_current e v.scheduled_completion (current_event_id env s) v s

  -- `reconcile_down` behind the call of `cancel`.
  unfoldable pub reconcile_cancelled :
      LinkStatistics → DirectedLinkService → Result Bool × Simulation G S → Outcome G S QueueDrain
  reconcile_cancelled next v (err e, s) = (err e, v, s)
  reconcile_cancelled next v (ok false, s) =
      (err (logic_error "active transmission completion could not be cancelled"), v, s)
  reconcile_cancelled next v (ok true, s) = reconciled next v s

  unfoldable pub reconcile_counted :
      LinkStatistics → Option ℕ → DirectedLinkService → Simulation G S → Outcome G S QueueDrain
  reconcile_counted next none v s = reconciled next v s
  reconcile_counted next (some id) v s = reconcile_cancelled next v (Context.cancel env id s)

  unfoldable pub reconcile_down : DirectedLinkService → Simulation G S → Outcome G S QueueDrain
  reconcile_down v s = elim (statistics_at s.now v) [
    | err e ↦ (err e, v, s)
    | ok t ↦ elim (drained_traffic v.queue.active v.queue) [
      | err e ↦ (err e, v, s)
      | ok dropped ↦ elim (Count.drop_down dropped t) [
        | err e ↦ (err e, v, s)
        | ok next ↦ reconcile_counted next v.scheduled_completion v s
      ]
    ]
  ]
