-- ===== src/Transport/LinkService/Operations.antt =====
-- transport/link_service.cpp: every operation of a link in a simulation, on every branch.
use nexus_lab.Prelude.{
  ℕ, ◌+◌, ◌≡◌, refl, sym, ap, ◌∙◌, ◌≢◌, ◌⊎◌, inl, inr, Bool, true, false, Option, none, some, List,
  [], ◌∷◌, arith, length, has_value, ◌==◌, if◌then◌else◌, Bool-cases, Option-cases,
}
use nexus_lab.Prelude.Except.{Error, Result, ok, err, Result-cases}
use nexus_lab.Sim.Event.{TransmissionCompleteEvent}
use nexus_lab.Sim.Env.{Env}
use nexus_lab.Sim.Simulation.{Simulation}
use nexus_lab.Sim.Context
use nexus_lab.Transport.Statistics.{TrafficCount, add_traffic, LinkStatistics}
use nexus_lab.Transport.LinkQueue
use nexus_lab.Transport.LinkQueue.{
  TransferChunk, DirectedLinkQueue, AdmissionResult, ServiceTransition, QueueDrain, next_waiting,
}
use nexus_lab.Transport.LinkQueue.Bounds
use nexus_lab.Transport.LinkQueue.Bounds.{total_bytes}
use nexus_lab.Transport.LinkQueue.Contents.{contents, line, complete_service_cases}
use nexus_lab.Transport.LinkService.{
  DirectedLinkService, Outcome, admission_statistics, is_idle, traffic_of, statistics_at,
  completion_time, admit_scheduled, admit_counted, admit, completed, complete_scheduled,
  complete_next, complete_matched, complete_expected, complete_current, handle_completion,
  matches_active, drained_traffic, reconciled, reconcile_cancelled, reconcile_counted,
  reconcile_down,
}
use nexus_lab.Transport.LinkService.Count
use nexus_lab.Transport.LinkService.Conservation.{
  Conserves, Inv, Sound, Counted, admission_statistics-Counted, admitted-Sound,
}

module _ {G S : Type 0} (env : Env G S) where
  admit_scheduled-Sound :
      (chunk : TransferChunk) (next : LinkStatistics) (v : DirectedLinkService) (now : ℕ)
      (answer : Result ℕ × Simulation G S)
      → Inv v
      → chunk.bytes ≢ 0
      → Counted chunk v next
      → Sound v (admit_scheduled env chunk next v now answer)
  unfolding admit_scheduled
  admit_scheduled-Sound chunk next v now (ok id, s) i nonzero counted =
      admitted-Sound chunk next (some id) v now s i nonzero (λ h. refl) counted
  admit_scheduled-Sound chunk next v now (err e, s) i nonzero counted = inl (e, refl, refl)

  admit_counted-Sound :
      (chunk : TransferChunk) (next : LinkStatistics) (v : DirectedLinkService) (s : Simulation G S)
      → Inv v
      → chunk.bytes ≢ 0
      → Counted chunk v next
      → Sound v (admit_counted env chunk next v s)
  unfolding admit_counted
  admit_counted-Sound chunk next v s i nonzero counted = elim (Bool-cases (is_idle v)) [
    | inl idle ↦ rw idle (admit_scheduled-Sound chunk next v s.now _ i nonzero counted)
    | inr busy ↦ rw busy (admitted-Sound chunk next none v s.now s i nonzero (λ h. cc) counted)
  ]

  -- Under the invariant `admit` either throws and changes nothing of the service, or keeps the
  -- invariant and conserves the bytes and chunks: what it counts as entered is on the link.
  pub admit-Sound :
      (chunk : TransferChunk) (v : DirectedLinkService) (s : Simulation G S)
      → Inv v
      → Sound v (admit env chunk v s)
  unfolding admit
  admit-Sound chunk v s i = elim (Bool-cases (chunk.bytes == 0)) [
    | inl z ↦ rw z (inl (_, refl, refl))
    | inr z ↦ elim (Result-cases (completion_time chunk v.queue.configuration s.now)) [
      | inr (e, late) ↦ rw (z, late, admit) (inl (e, refl, refl))
      | inl (time, fits) ↦ elim (Result-cases (admission_statistics chunk v)) [
        | inr (e, full) ↦ rw (z, fits, admit, full) (inl (e, refl, refl))
        | inl (next, counts) ↦
            rw (z, fits, admit, counts)
              (admit_counted-Sound chunk next v s i (ground arith)
                (admission_statistics-Counted chunk v next counts))
      ]
    ]
  ]

-- An exception leaves the service as it was; an answer leaves it in order, with nothing lost, and with
-- counters that satisfy `P`.
abbrev pub SoundBy :
    {G S A : Type 0} → (LinkStatistics → Type 0) → DirectedLinkService → Outcome G S A → Type 0
SoundBy {A} P v (answer, w, s) =
    ((e : Error) × (answer ≡ err e) × (w ≡ v))
    ⊎ ((a : A) × (answer ≡ ok a) × Inv w × Conserves v w × P w.statistics)

-- The counters at the end of a service.
abbrev Finishes : TransferChunk → DirectedLinkService → LinkStatistics → Type 0
Finishes active v next =
    (next.enqueued ≡ v.statistics.enqueued)
    × (next.dropped_link_down ≡ v.statistics.dropped_link_down)
    × (next.completed.bytes ≡ v.statistics.completed.bytes + active.bytes)
    × (next.completed.chunks ≡ v.statistics.completed.chunks + 1)

-- The chunk that was in service, and nothing else, is counted as completed.
abbrev pub Finished : DirectedLinkService → LinkStatistics → Type 0
Finished v next = (active : TransferChunk) × (v.queue.active ≡ some active) × Finishes active v next

add_busy-Finishes :
    (now : ℕ) (active : TransferChunk) (v : DirectedLinkService) (t next : LinkStatistics)
    → statistics_at now v ≡ ok t
    → Count.complete (traffic_of active) t ≡ ok next
    → Finishes active v next
unfolding statistics_at add_traffic
add_busy-Finishes now active v t next h k = elim (Option-cases v.busy_since) [
  | inl idle ↦ ground arith
  | inr (since, busy) ↦ ground arith
]

start-Finishes :
    (waiting active : TransferChunk) (v : DirectedLinkService) (next next' : LinkStatistics)
    → Count.start (traffic_of waiting) next ≡ ok next'
    → Finishes active v next
    → Finishes active v next'
unfolding add_traffic
start-Finishes waiting active v next next' h (entered, down, bytes, chunks) = ground arith

complete_service-has_value :
    (q : DirectedLinkQueue) (active : TransferChunk)
    → q.active ≡ some active
    → has_value (LinkQueue.complete_service q).1.active ≡ has_value (next_waiting q)
unfolding LinkQueue.complete_service LinkQueue.complete_active LinkQueue.start_next next_waiting
complete_service-has_value q active a = ground arith

cons_head {ℓ} : {A : Type ℓ} {x y : A} {xs ys : List A} → x ∷ xs ≡ y ∷ ys → (x ≡ y) × (xs ≡ ys)
cons_head e = (cc, cc)

-- A chunk that has left the link and is counted.
Conserves-leave :
    (chunk : TransferChunk) (v w : DirectedLinkService)
    → contents v.queue ≡ chunk ∷ contents w.queue
    → w.statistics.enqueued ≡ v.statistics.enqueued
    → w.statistics.dropped_link_down ≡ v.statistics.dropped_link_down
    → w.statistics.completed.bytes ≡ v.statistics.completed.bytes + chunk.bytes
    → w.statistics.completed.chunks ≡ v.statistics.completed.chunks + 1
    → Conserves v w
Conserves-leave chunk v w line entered down bytes chunks =
    rw (line, entered, down) (omega arith, omega arith)

module _ {G S : Type 0} where
  completed-Sound :
      (next : LinkStatistics) (completion : Option ℕ) (active : TransferChunk)
      (v : DirectedLinkService) (s : Simulation G S)
      → Inv v
      → v.queue.active ≡ some active
      → has_value completion ≡ has_value (next_waiting v.queue)
      → Finishes active v next
      → SoundBy (Finished v) v (completed next completion v s)
  unfolding completed
  completed-Sound next completion active v s i a follows (entered, down, bytes, chunks) =
      let counted : Finished v next = (active, a, (entered, down, bytes, chunks)) in
      let queue = (LinkQueue.complete_service v.queue).1 in
      let clocked : Option ℕ = if has_value completion then some s.now else none in
      let works : has_value completion ≡ has_value queue.active =
        follows ∙ sym (complete_service-has_value v.queue active a) in
      elim (complete_service_cases v.queue i.queue) [
        | inl (empty, _, _) ↦ absurd (holds empty)
        | inr (t, answer, front_of, _, _) ↦
            rw (answer, completed)
              (inr (
                t,
                refl,
                record {
                  queue = Bounds.complete_service-Inv v.queue i.queue;
                  booked = works;
                  clocked = clock ∙ works;
                },
                Conserves-leave t.completed v
                    (record {
                      queue = queue;
                      statistics = next;
                      scheduled_completion = completion;
                      busy_since = clocked;
                    })
                    front_of entered down
                    (bytes
                      ∙ ap (λ (c : TransferChunk). v.statistics.completed.bytes + c.bytes)
                          (cons_head (sym front ∙ front_of)).0)
                    chunks,
                counted,
              ))
      ]
    where
      front : contents v.queue ≡ active ∷ v.queue.waiting
      front = simp a refl

      holds : contents v.queue ≡ [] → ⊥
      holds empty = cc (sym front ∙ empty)

      clock :
          has_value (if◌then◌else◌ (has_value completion) (some s.now) none) ≡ has_value completion
      clock = ground arith

module _ {G S : Type 0} (env : Env G S) where
  complete_scheduled-Sound :
      (next : LinkStatistics) (active waiting : TransferChunk) (v : DirectedLinkService)
      (answer : Result ℕ × Simulation G S)
      → Inv v
      → v.queue.active ≡ some active
      → next_waiting v.queue ≡ some waiting
      → Finishes active v next
      → SoundBy (Finished v) v (complete_scheduled env next v answer)
  unfolding complete_scheduled
  complete_scheduled-Sound next active waiting v (ok id, s) i a w f =
      completed-Sound next (some id) active v s i a (ap has_value (sym w)) f
  complete_scheduled-Sound next active waiting v (err e, s) i a w f = inl (e, refl, refl)

  complete_next-Sound :
      (next : LinkStatistics) (active : TransferChunk) (waiting : Option TransferChunk)
      (v : DirectedLinkService) (s : Simulation G S)
      → Inv v
      → v.queue.active ≡ some active
      → next_waiting v.queue ≡ waiting
      → Finishes active v next
      → SoundBy (Finished v) v (complete_next env next waiting v s)
  unfolding complete_next
  complete_next-Sound next active none v s i a w f =
      completed-Sound next none active v s i a (ap has_value (sym w)) f
  complete_next-Sound next active (some waiting) v s i a w f =
      elim (Result-cases (Count.start (traffic_of waiting) next)) [
        | inr (e, full) ↦ rw (full, complete_next) (inl (e, refl, refl))
        | inl (next', counts) ↦
            rw (counts, complete_next)
              (complete_scheduled-Sound next' active waiting v _ i a w
                (start-Finishes waiting active v next next' counts f))
      ]

  complete_matched-Sound :
      (active : TransferChunk) (v : DirectedLinkService) (s : Simulation G S)
      → Inv v
      → v.queue.active ≡ some active
      → SoundBy (Finished v) v (complete_matched env active v s)
  unfolding complete_matched
  complete_matched-Sound active v s i a = elim (Result-cases (statistics_at s.now v)) [
    | inr (e, late) ↦ rw (late, complete_matched) (inl (e, refl, refl))
    | inl (t, busy) ↦ elim (Result-cases (Count.complete (traffic_of active) t)) [
      | inr (e, full) ↦ rw (busy, complete_matched, full) (inl (e, refl, refl))
      | inl (next, counts) ↦
          rw (busy, complete_matched, counts)
            (complete_next-Sound next active (next_waiting v.queue) v s i a refl
              (add_busy-Finishes s.now active v t next busy counts))
    ]
  ]

  complete_expected-Sound :
      (e : TransmissionCompleteEvent) (active : Option TransferChunk) (v : DirectedLinkService)
      (s : Simulation G S)
      → Inv v
      → v.queue.active ≡ active
      → SoundBy (Finished v) v (complete_expected env e active v s)
  unfolding complete_expected
  complete_expected-Sound e none v s i a = inl (_, refl, refl)
  complete_expected-Sound e (some active) v s i a =
      elim (Bool-cases (matches_active e v.queue active)) [
        | inl same ↦ rw same (complete_matched-Sound active v s i a)
        | inr other ↦ rw other (inl (_, refl, refl))
      ]

  complete_current-Sound :
      (e : TransmissionCompleteEvent) (scheduled : Option ℕ) (current : Result ℕ)
      (v : DirectedLinkService) (s : Simulation G S)
      → Inv v
      → SoundBy (Finished v) v (complete_current env e scheduled current v s)
  unfolding complete_current
  complete_current-Sound e none current v s i = inl (_, refl, refl)
  complete_current-Sound e (some scheduled) (err x) v s i = inl (x, refl, refl)
  complete_current-Sound e (some scheduled) (ok current) v s i =
      elim (Bool-cases (scheduled == current)) [
        | inl same ↦ rw same (complete_expected-Sound e v.queue.active v s i refl)
        | inr other ↦ rw other (inl (_, refl, refl))
      ]

  -- Under the invariant `handle_completion` either throws and changes nothing of the service, or
  -- keeps the invariant, conserves the bytes and chunks, and counts the chunk that was in service
  -- as completed, and nothing as entered or dropped for a link that is down.
  pub handle_completion-Sound :
      (e : TransmissionCompleteEvent) (v : DirectedLinkService) (s : Simulation G S)
      → Inv v
      → SoundBy (Finished v) v (handle_completion env e v s)
  unfolding handle_completion
  handle_completion-Sound e v s i =
      complete_current-Sound e v.scheduled_completion (Context.current_event_id env s) v s i

-- The counters of a drain: all that is on the link is dropped.
abbrev pub Drains : DirectedLinkService → LinkStatistics → Type 0
Drains v next =
    (next.enqueued ≡ v.statistics.enqueued)
    × (next.completed ≡ v.statistics.completed)
    × (next.dropped_link_down.bytes
        ≡ v.statistics.dropped_link_down.bytes + total_bytes (contents v.queue))
    × (next.dropped_link_down.chunks
        ≡ v.statistics.dropped_link_down.chunks + length (contents v.queue))

drained_traffic-contents :
    (active : Option TransferChunk) (q : DirectedLinkQueue) (dropped : TrafficCount)
    → Bounds.Inv q
    → drained_traffic active q ≡ ok dropped
    → (dropped.bytes ≡ total_bytes (line active q.waiting))
      × (dropped.chunks ≡ length (line active q.waiting))
unfolding drained_traffic add_traffic LinkQueue.snapshot
drained_traffic-contents none q dropped i h = let held = i.accounted in ground arith
drained_traffic-contents (some active) q dropped i h = let held = i.accounted in ground arith

drop_down-Drains :
    (now : ℕ) (v : DirectedLinkService) (t next : LinkStatistics) (dropped : TrafficCount)
    → statistics_at now v ≡ ok t
    → Count.drop_down dropped t ≡ ok next
    → dropped.bytes ≡ total_bytes (contents v.queue)
    → dropped.chunks ≡ length (contents v.queue)
    → Drains v next
unfolding statistics_at add_traffic
drop_down-Drains now v t next dropped h k bytes chunks = elim (Option-cases v.busy_since) [
  | inl idle ↦ ground arith
  | inr (since, busy) ↦ ground arith
]

module _ {G S : Type 0} where
  reconciled-Sound :
      (next : LinkStatistics) (v : DirectedLinkService) (s : Simulation G S)
      → Inv v
      → Drains v next
      → SoundBy (Drains v) v (reconciled next v s)
  unfolding reconciled
  reconciled-Sound next v s i (entered, done, bytes, chunks) = inr (
    _,
    refl,
    record {
      queue = Bounds.drain-Inv v.queue i.queue;
      booked = unfold LinkQueue.drain in refl;
      clocked = unfold LinkQueue.drain in refl;
    },
    unfold LinkQueue.drain in
        (rw (entered, done) (omega (arith, bytes)), rw (entered, done) (omega (arith, chunks))),
    (entered, done, bytes, chunks),
  )

module _ {G S : Type 0} (env : Env G S) where
  reconcile_cancelled-Sound :
      (next : LinkStatistics) (v : DirectedLinkService) (answer : Result Bool × Simulation G S)
      → Inv v
      → Drains v next
      → SoundBy (Drains v) v (reconcile_cancelled env next v answer)
  unfolding reconcile_cancelled
  reconcile_cancelled-Sound next v (err e, s) i d = inl (e, refl, refl)
  reconcile_cancelled-Sound next v (ok false, s) i d = inl (_, refl, refl)
  reconcile_cancelled-Sound next v (ok true, s) i d = reconciled-Sound next v s i d

  reconcile_counted-Sound :
      (next : LinkStatistics) (scheduled : Option ℕ) (v : DirectedLinkService) (s : Simulation G S)
      → Inv v
      → Drains v next
      → SoundBy (Drains v) v (reconcile_counted env next scheduled v s)
  unfolding reconcile_counted
  reconcile_counted-Sound next none v s i d = reconciled-Sound next v s i d
  reconcile_counted-Sound next (some id) v s i d = reconcile_cancelled-Sound next v _ i d

  -- Under the invariant `reconcile_down` either throws and changes nothing of the service, or keeps
  -- the invariant, conserves the bytes and chunks, and counts all that was on the link as dropped for
  -- a link that is down, and nothing as entered or completed.
  pub reconcile_down-Sound :
      (v : DirectedLinkService) (s : Simulation G S)
      → Inv v
      → SoundBy (Drains v) v (reconcile_down env v s)
  unfolding reconcile_down
  reconcile_down-Sound v s i = elim (Result-cases (statistics_at s.now v)) [
    | inr (e, late) ↦ rw (late, reconcile_down) (inl (e, refl, refl))
    | inl (t, busy) ↦ elim (Result-cases (drained_traffic v.queue.active v.queue)) [
      | inr (e, full) ↦ rw (busy, reconcile_down, full) (inl (e, refl, refl))
      | inl (dropped, held) ↦ elim (Result-cases (Count.drop_down dropped t)) [
        | inr (e, full) ↦ rw (busy, reconcile_down, held, full) (inl (e, refl, refl))
        | inl (next, counts) ↦
            let (bytes, chunks) =
              drained_traffic-contents v.queue.active v.queue dropped i.queue held in
            rw (busy, reconcile_down, held, counts)
              (reconcile_counted-Sound next v.scheduled_completion v s i
                (drop_down-Drains s.now v t next dropped busy counts bytes chunks))
      ]
    ]
  ]
