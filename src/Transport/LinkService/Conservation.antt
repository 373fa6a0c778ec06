-- ===== src/Transport/LinkService/Conservation.antt =====
-- transport/link_service.cpp: what its counters say of the chunks on a link.
use nexus_lab.Prelude.{
  ℕ, ◌+◌, ◌-◌, ◌≤◌, ◌<◌, ◌≡◌, refl, sym, ap, ◌∙◌, ◌≢◌, ◌⊎◌, inl, inr, true, false, Option, none,
  some, [], ◌∷◌, ◌++◌, arith, length, length-append, has_value, Option-cases,
}
use nexus_lab.Prelude.Except.{Error, ok, err}
use nexus_lab.Transport.Statistics.{TrafficCount, add_traffic, LinkStatistics}
use nexus_lab.Transport.LinkQueue
use nexus_lab.Transport.LinkQueue.{
  TransferChunk, DirectedLinkQueue, AdmissionResult, ServiceTransition, QueueDrain, reaches,
  next_waiting,
}
use nexus_lab.Transport.LinkQueue.Bounds
use nexus_lab.Transport.LinkQueue.Bounds.{total_bytes, total_bytes-append}
use nexus_lab.Transport.LinkQueue.Contents.{contents, admit_cases}
use nexus_lab.Transport.LinkService.{
  DirectedLinkService, Outcome, admission_statistics, admitted, is_idle,
}
use nexus_lab.Sim.Simulation.{Simulation}

-- The bytes and chunks that have left the link, or that it holds.
abbrev pub bytes_out : DirectedLinkService → ℕ
bytes_out v =
    v.statistics.completed.bytes
    + v.statistics.dropped_link_down.bytes
    + total_bytes (contents v.queue)

abbrev pub chunks_out : DirectedLinkService → ℕ
chunks_out v =
    v.statistics.completed.chunks
    + v.statistics.dropped_link_down.chunks
    + length (contents v.queue)

-- What has entered the link since `v` has left it or is held by it.
abbrev pub Conserves : DirectedLinkService → DirectedLinkService → Type 0
Conserves v w =
    (w.statistics.enqueued.bytes + bytes_out v ≡ v.statistics.enqueued.bytes + bytes_out w)
    × (w.statistics.enqueued.chunks + chunks_out v ≡ v.statistics.enqueued.chunks + chunks_out w)

-- A completion is scheduled, and the time of the service runs, exactly while a chunk is in service.
pub record Inv (v : DirectedLinkService) : Type 0 where
  pub queue : Bounds.Inv v.queue
  pub booked : has_value v.scheduled_completion ≡ has_value v.queue.active
  pub clocked : has_value v.busy_since ≡ has_value v.queue.active

-- An exception leaves the service as it was; an answer leaves it in order, with nothing lost.
abbrev pub Sound : {G S A : Type 0} → DirectedLinkService → Outcome G S A → Type 0
Sound {A} v (answer, w, s) =
    ((e : Error) × (answer ≡ err e) × (w ≡ v)) ⊎ ((a : A) × (answer ≡ ok a) × Inv w × Conserves v w)

-- How `admit` counts: a chunk that finds no room is not counted as entered.
abbrev pub Counted : TransferChunk → DirectedLinkService → LinkStatistics → Type 0
Counted chunk v next =
    (next.completed ≡ v.statistics.completed)
    × (next.dropped_link_down ≡ v.statistics.dropped_link_down)
    × (((v.queue.active ≢ none)
          × (v.queue.configuration.waiting_buffer_capacity - v.queue.waiting_bytes < chunk.bytes)
          × (next.enqueued ≡ v.statistics.enqueued))
        ⊎ (((v.queue.active ≡ none)
              ⊎ (chunk.bytes
                  ≤ v.queue.configuration.waiting_buffer_capacity - v.queue.waiting_bytes))
            × (next.enqueued.bytes ≡ v.statistics.enqueued.bytes + chunk.bytes)
            × (next.enqueued.chunks ≡ v.statistics.enqueued.chunks + 1)))

pub admission_statistics-Counted :
    (chunk : TransferChunk) (v : DirectedLinkService) (next : LinkStatistics)
    → admission_statistics chunk v ≡ ok next
    → Counted chunk v next
unfolding admission_statistics add_traffic
admission_statistics-Counted chunk v next h = elim (Option-cases v.queue.active) [
  | inl idle ↦ ground arith
  | inr (c, busy) ↦ ground arith
]

admit-has_value :
    (chunk : TransferChunk) (q : DirectedLinkQueue)
    → chunk.bytes ≢ 0
    → has_value (LinkQueue.admit chunk q).1.active ≡ true
unfolding LinkQueue.admit LinkQueue.enqueue
admit-has_value chunk q nonzero = ground arith

-- A chunk that has entered the queue and is counted.
Conserves-enter :
    (chunk entered : TransferChunk) (v w : DirectedLinkService)
    → contents w.queue ≡ contents v.queue ++ (entered ∷ [])
    → entered.bytes ≡ chunk.bytes
    → w.statistics.completed ≡ v.statistics.completed
    → w.statistics.dropped_link_down ≡ v.statistics.dropped_link_down
    → w.statistics.enqueued.bytes ≡ v.statistics.enqueued.bytes + chunk.bytes
    → w.statistics.enqueued.chunks ≡ v.statistics.enqueued.chunks + 1
    → Conserves v w
Conserves-enter chunk entered v w line size done down bytes chunks =
    let held = ap total_bytes line ∙ total_bytes-append (contents v.queue) (entered ∷ []) in
    let count = ap length line ∙ length-append (contents v.queue) (entered ∷ []) in
    (
      omega (
        arith,
        held,
        ap (λ (t : TrafficCount). t.bytes) done,
        ap (λ (t : TrafficCount). t.bytes) down,
      ),
      omega (
        arith,
        count,
        ap (λ (t : TrafficCount). t.chunks) done,
        ap (λ (t : TrafficCount). t.chunks) down,
      ),
    )

Conserves-same :
    (v w : DirectedLinkService)
    → contents w.queue ≡ contents v.queue
    → w.statistics.completed ≡ v.statistics.completed
    → w.statistics.dropped_link_down ≡ v.statistics.dropped_link_down
    → w.statistics.enqueued ≡ v.statistics.enqueued
    → Conserves v w
Conserves-same v w line done down entered = rw (line, done, down, entered) (refl, refl)

module _ {G S : Type 0} where
  pub admitted-Sound :
      (chunk : TransferChunk) (next : LinkStatistics) (completion : Option ℕ)
      (v : DirectedLinkService) (now : ℕ) (s : Simulation G S)
      → Inv v
      → chunk.bytes ≢ 0
      → (is_idle v ≡ true → has_value completion ≡ true)
      → Counted chunk v next
      → Sound v (admitted chunk next completion v now s)
  unfolding admitted
  admitted-Sound chunk next completion v now s i nonzero scheduled (done, down, counted) =
      let queue = (LinkQueue.admit chunk v.queue).1 in
      let after = record v { queue = queue; statistics = next } in
      let serving : DirectedLinkService = record {
        queue = queue;
        statistics = next;
        scheduled_completion = completion;
        busy_since = some now;
      } in
      elim (admit_cases chunk v.queue i.queue) [
        | inl (zero_bytes, _) ↦ absurd (nonzero zero_bytes)
        | inr (inl (_, idle, answer, line)) ↦
            let idles : is_idle v ≡ true = simp idle refl in
            rw (answer, admitted, idles)
              (inr (
                _,
                refl,
                record { queue = kept; booked = scheduled idles ∙ sym busy'; clocked = sym busy' },
                elim counted [
                  | inl (busy, _, _) ↦ absurd (busy idle)
                  | inr (_, bytes, chunks) ↦
                      Conserves-enter chunk chunk v serving line refl done down bytes chunks
                ],
              ))
        | inr (inr (inl (_, busy, full, answer))) ↦
            let works : is_idle v ≡ false = ground arith in
            rw (ap (λ r. r.0) answer, admitted, works)
              (inr (
                _,
                refl,
                record {
                  queue = kept;
                  booked = i.booked ∙ working busy;
                  clocked = i.clocked ∙ working busy;
                },
                elim counted [
                  | inl (_, _, entered) ↦
                      Conserves-same v after (ap contents (ap (λ r. r.1) answer)) done down entered
                  | inr (inl idle, _, _) ↦ absurd (busy idle)
                  | inr (inr room, _, _) ↦ absurd (overfull room full)
                ],
              ))
        | inr (inr (inr (_, busy, room, answer, line))) ↦
            let works : is_idle v ≡ false = ground arith in
            rw (answer, admitted, works)
              (inr (
                _,
                refl,
                record {
                  queue = kept;
                  booked = i.booked ∙ working busy;
                  clocked = i.clocked ∙ working busy;
                },
                elim counted [
                  | inl (_, full, _) ↦ absurd (no_room full room)
                  | inr (_, bytes, chunks) ↦
                      Conserves-enter chunk _ v after line refl done down bytes chunks
                ],
              ))
      ]
    where
      kept : Bounds.Inv (LinkQueue.admit chunk v.queue).1
      kept = Bounds.admit-Inv chunk v.queue i.queue

      busy' : has_value (LinkQueue.admit chunk v.queue).1.active ≡ true
      busy' = admit-has_value chunk v.queue nonzero

      working :
          v.queue.active ≢ none
          → has_value v.queue.active ≡ has_value (LinkQueue.admit chunk v.queue).1.active
      working busy = ground (arith, busy')

      overfull :
          chunk.bytes ≤ v.queue.configuration.waiting_buffer_capacity - v.queue.waiting_bytes
          → v.queue.configuration.waiting_buffer_capacity
            < total_bytes v.queue.waiting + chunk.bytes
          → ⊥
      overfull room full = omega (arith, i.queue.accounted, i.queue.within)

      no_room :
          v.queue.configuration.waiting_buffer_capacity - v.queue.waiting_bytes < chunk.bytes
          → total_bytes v.queue.waiting + chunk.bytes
            ≤ v.queue.configuration.waiting_buffer_capacity
          → ⊥
      no_room full room = omega (arith, i.queue.accounted, i.queue.within)
