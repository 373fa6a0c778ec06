-- ===== src/Transport/LinkQueue/Contents.antt =====
-- transport/link_queue.cpp against its contract: a first-in first-out line of chunks, of which the
-- first is in service.
use nexus_lab.Prelude.{
  ℕ, ◌+◌, ◌-◌, ◌≤◌, ◌<◌, ◌≡◌, refl, sym, ap, ◌∙◌, ◌≢◌, ◌⊎◌, inl, inr, false, Option, none, some,
  List, [], ◌∷◌, ◌++◌, arith, ltb, ◌==◌, ◌||◌, Bool-cases, Option-cases, ==_iff,
}
use mathlib.Core.List.{append_assoc, append-nil}
use nexus_lab.Prelude.Except.{ok, err, invalid_argument}
use nexus_lab.Transport.LinkQueue.{
  TransferChunk, service_started, queued, dropped_buffer_full, ServiceTransition, DirectedLinkQueue,
  reaches, enqueue, admit, start_next, complete_active, complete_service, drain_waiting, drain,
}
use nexus_lab.Transport.LinkQueue.Bounds.{Inv, total_bytes}

-- The chunk in service before `rest`.
abbrev pub line : Option TransferChunk → List TransferChunk → List TransferChunk
line none rest = rest
line (some c) rest = c ∷ rest

-- The chunks of a link, the one in service first, then in the order of their service.
abbrev pub contents : DirectedLinkQueue → List TransferChunk
contents q = line q.active q.waiting

-- The mark that a chunk carries behind a queue that holds `bytes` with it.
abbrev pub marked_behind : ℕ → TransferChunk → DirectedLinkQueue → TransferChunk
marked_behind bytes chunk q = record chunk {
  marked = chunk.marked || reaches bytes q.configuration.marking_threshold;
}

line-append :
    (a : Option TransferChunk) (c : TransferChunk) (rest : List TransferChunk)
    → a ≢ none
    → line a (rest ++ (c ∷ [])) ≡ line a rest ++ (c ∷ [])
line-append none c rest h = absurd (h refl)
line-append (some a) c rest h = refl

-- How `admit` answers, by cases.
abbrev pub AdmitAnswers : TransferChunk → DirectedLinkQueue → Type 0
AdmitAnswers chunk q =
    ((chunk.bytes ≡ 0)
      × (admit chunk q ≡ (err (invalid_argument "transfer chunk must contain nonzero bytes"), q)))
    ⊎ ((chunk.bytes ≢ 0)
        × (q.active ≡ none)
        × ((admit chunk q).0 ≡ ok (record { disposition = service_started; marked_here = false }))
        × (contents (admit chunk q).1 ≡ contents q ++ (chunk ∷ [])))
    ⊎ ((chunk.bytes ≢ 0)
        × (q.active ≢ none)
        × (q.configuration.waiting_buffer_capacity < total_bytes q.waiting + chunk.bytes)
        × (admit chunk q
            ≡ (ok (record { disposition = dropped_buffer_full; marked_here = false }), q)))
    ⊎ ((chunk.bytes ≢ 0)
        × (q.active ≢ none)
        × (total_bytes q.waiting + chunk.bytes ≤ q.configuration.waiting_buffer_capacity)
        × ((admit chunk q).0
            ≡ ok (record {
              disposition = queued;
              marked_here =
                  reaches (total_bytes q.waiting + chunk.bytes) q.configuration.marking_threshold;
            }))
        × (contents (admit chunk q).1
            ≡ contents q ++ (marked_behind (total_bytes q.waiting + chunk.bytes) chunk q ∷ [])))

pub admit_cases : (chunk : TransferChunk) (q : DirectedLinkQueue) → Inv q → AdmitAnswers chunk q
unfolding admit enqueue
admit_cases chunk q v = elim (Bool-cases (chunk.bytes == 0)) [
  | inl z ↦ inl ((==_iff _ _).0 z, rw z refl)
  | inr z ↦
      let nonzero : chunk.bytes ≢ 0 = ground arith in
      elim (Option-cases q.active) [
        | inl idle ↦
            let empty : q.waiting ≡ [] = elim v.busy [ inl n ↦ absurd (n idle) | inr e ↦ e ] in
            inr (inl (nonzero, idle, simp (z, idle) refl, simp (z, idle, empty) refl))
        | inr (c, active) ↦
            let working : q.active ≢ none = λ e. cc in
            let held = v.accounted in
            let within = v.within in
            elim (Bool-cases
              (ltb (q.configuration.waiting_buffer_capacity - q.waiting_bytes) chunk.bytes)) [
                | inl full ↦
                    inr (inr (inl (nonzero, working, ground arith, simp (z, active, full) refl)))
                | inr room ↦ inr (
                    inr (
                      inr (
                        nonzero,
                        working,
                        ground arith,
                        rw (← held) (simp (z, active, room) refl),
                        rw (enqueues z active room, ← held)
                            (line-append q.active _ q.waiting working),
                      )))
              ]
      ]
]
  where
    enqueues :
        {c : TransferChunk}
        → (chunk.bytes == 0) ≡ false
        → q.active ≡ some c
        → ltb (q.configuration.waiting_buffer_capacity - q.waiting_bytes) chunk.bytes ≡ false
        → admit chunk q ≡ enqueue chunk q
    enqueues z active room = simp (z, active, room)

-- The first chunk of the line, if any, is in service.
abbrev pub Serves : DirectedLinkQueue → Type 0
Serves q =
    ((contents q ≡ []) × (q.active ≡ none))
    ⊎ ((next : TransferChunk) × (rest : List TransferChunk) × (contents q ≡ next ∷ rest)
        × (q.active ≡ some next))

start_next-contents :
    (done : TransferChunk) (waiting : List TransferChunk) (q : DirectedLinkQueue)
    → q.waiting ≡ waiting
    → ((start_next done waiting q).0.completed ≡ done)
      × (contents (start_next done waiting q).1 ≡ waiting)
      × ((start_next done waiting q).0.next_started ≡ (start_next done waiting q).1.active)
      × Serves (start_next done waiting q).1
unfolding start_next
start_next-contents done [] q w = (refl, w, refl, inl (w, refl))
start_next-contents done (next ∷ rest) q w = (refl, refl, refl, inr (next, rest, refl, refl))

-- What the end of a service makes of a link whose line is `before`.
abbrev pub Completes :
    List TransferChunk → DirectedLinkQueue → Option ServiceTransition × DirectedLinkQueue → Type 0
Completes before q (answer, after) =
    ((before ≡ []) × (answer ≡ none) × (after ≡ q))
    ⊎ ((t : ServiceTransition) × (answer ≡ some t)
        × (before ≡ t.completed ∷ contents after)
        × (t.next_started ≡ after.active)
        × Serves after)

complete_active-Completes :
    (active : Option TransferChunk) (q : DirectedLinkQueue)
    → Inv q
    → q.active ≡ active
    → Completes (line active q.waiting) q (complete_active active q)
unfolding complete_active
complete_active-Completes none q v a =
    inl (elim v.busy [ inl n ↦ absurd (n a) | inr e ↦ e ], refl, refl)
complete_active-Completes (some done) q v a =
    let (completed, left, started, serves) = start_next-contents done q.waiting q refl in
    inr ((start_next done q.waiting q).0, refl, rw (completed, left) refl, started, serves)

-- On a link with its accounts in order, the end of a service takes the first chunk out of the line,
-- and the next one, if any, is served. An idle link has an empty line and nothing to complete.
pub complete_service_cases :
    (q : DirectedLinkQueue) → Inv q → Completes (contents q) q (complete_service q)
unfolding complete_service
complete_service_cases q v = complete_active-Completes q.active q v refl

drain_waiting-append : (ds cs : List TransferChunk) → drain_waiting ds cs ≡ ds ++ cs
unfolding drain_waiting
drain_waiting-append ds [] = sym (append-nil ds)
drain_waiting-append ds (c ∷ cs) =
    drain_waiting-append (ds ++ (c ∷ [])) cs ∙ append_assoc ds (c ∷ []) cs

-- A drain hands out the whole line in its order, and leaves the link idle and empty with no byte
-- waiting.
drain-contents :
    (q : DirectedLinkQueue)
    → (line (drain q).0.active (drain q).0.waiting ≡ contents q)
      × (contents (drain q).1 ≡ [])
      × ((drain q).1.waiting_bytes ≡ 0)
unfolding drain
drain-contents q = (ap (line q.active) (drain_waiting-append [] q.waiting), refl, refl)
