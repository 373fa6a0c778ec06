-- ===== src/Transport/Runtime/Steps.antt =====
-- The handlers of transport/runtime.cpp and failure.cpp move chunks by their rules.
use nexus_lab.Prelude.{
  ℕ, ◌≡◌, ◌⊎◌, refl, sym, ap, ==_iff, inl, inr, Bool, true, false, ◌&&◌, Option, none, some, List,
  length, get_elem?, ◌==◌, Bool-cases,
}
use nexus_lab.Prelude.Except.{ok}
use nexus_lab.Topology.Graph.{TopologyGraph}
use nexus_lab.Topology.Entities.{
  DirectedLinkId, DirectedLink, LinkDirection, a_to_b, b_to_a, direction_eq,
}
use nexus_lab.Transport.Runtime.Rules.{ArrivesIn, arrival_rule, completion_rule, failure_rule}
use nexus_lab.Topology.Operation.{is_operational}
use nexus_lab.Sim.Event.{ChunkArrivalEvent, TransmissionCompleteEvent}
use nexus_lab.Sim.Env.{Env}
use nexus_lab.Sim.Context.{current_event_id}
use nexus_lab.Transport.Statistics.{LinkStatistics}
use nexus_lab.Transport.LinkQueue.{
  TransferChunk, AdmissionResult, AdmissionDisposition, service_started, queued, ServiceTransition,
}
use nexus_lab.Transport.Runtime.{
  TransportRuntime, ChunkRecord, ChunkTransitState, registered, awaiting_arrival, admitted,
  delivered, dropped_buffer_full, dropped_link_down, find_chunk, require_fabric_arc,
}
use nexus_lab.Transport.Runtime.Progress.{set_chunk}
use nexus_lab.Transport.Runtime.Handlers.{
  is_awaiting, is_admitted, expected_arrival, unexpected_arrival, delivered_entry, down_entry,
  positioned, entered, state_after, deliver, refuse, settle_admission, enter_link, arrive_at,
  arrive, handle_arrival,
}
use nexus_lab.Transport.Runtime.Completion.{
  expected_completion, unexpected_completion, crosses, serialized, next_hop, propagating, propagate,
  settle_completion, link_of, end_of_propagation, end_service, complete_at, handle_completion,
}
use nexus_lab.Transport.Runtime.Failures.{
  drained_as_expected, not_as_drained, drained_entry, drop_drained, mark,
}
use nexus_lab.Transport.Runtime.Keeping.{
  bind, same, emit_transfer-Kept, emit_queue-Kept, emit_link-Kept, record_terminal-Kept,
  announce_admission-Kept, announce_next-Kept, end_admission-Kept, require_service-Kept,
  use_service-Kept, statistics_now-Kept, schedule_event-Kept,
}
use nexus_lab.Transport.Runtime.Moving
use nexus_lab.Transport.Runtime.Moving.{
  Rule, Follows, Follows-moves, Leads, still, after_still, after_move, after_set, after_require,
  after_answer, after_require_chunk, when-Leads, find_chunk_set, set_at, is_final,
}

is_awaiting-true : (s : ChunkTransitState) → is_awaiting s ≡ true → s ≡ awaiting_arrival
is_awaiting-true awaiting_arrival h = refl
is_awaiting-true registered h = let impossible : ⊥ = cc in absurd impossible
is_awaiting-true admitted h = let impossible : ⊥ = cc in absurd impossible
is_awaiting-true delivered h = let impossible : ⊥ = cc in absurd impossible
is_awaiting-true dropped_buffer_full h = let impossible : ⊥ = cc in absurd impossible
is_awaiting-true dropped_link_down h = let impossible : ⊥ = cc in absurd impossible

is_admitted-true : (s : ChunkTransitState) → is_admitted s ≡ true → s ≡ admitted
is_admitted-true admitted h = refl
is_admitted-true registered h = let impossible : ⊥ = cc in absurd impossible
is_admitted-true awaiting_arrival h = let impossible : ⊥ = cc in absurd impossible
is_admitted-true delivered h = let impossible : ⊥ = cc in absurd impossible
is_admitted-true dropped_buffer_full h = let impossible : ⊥ = cc in absurd impossible
is_admitted-true dropped_link_down h = let impossible : ⊥ = cc in absurd impossible

and_first : (a b : Bool) → (a && b) ≡ true → a ≡ true
and_first true b h = refl
and_first false b h = h

-- The writes of the handlers: from a state, on the same route.
moved_from :
    {rule : Rule} (id : ℕ) (s : ChunkTransitState) {old new : ChunkRecord}
    → old.state ≡ s
    → is_final s ≡ false
    → new.route ≡ old.route
    → (s ≡ new.state) ⊎ rule.Allows id old.route s new.state
    → Follows rule id old new
moved_from id s {old} {new} at going route moves = Follows-moves route (rw at moves) (rw at going)

module _ {rule : Rule} {G S : Type 0} {c : List (ℕ × ChunkRecord)} (env : Env G S)
    (t : TransportRuntime G S) (h : t.chunks ≡ c) where
  deliver-Leads :
      (id : ℕ) (old entry : ChunkRecord)
      → find_chunk id c ≡ some old
      → Follows rule id old entry
      → Leads rule c (deliver env id entry t)
  unfolding deliver
  deliver-Leads id old entry found follows =
      let u = record t { chunks = set_at id entry t.chunks } in
      let k = ap (set_at id entry) h in
      after_set id old entry found follows (
        still (
          bind (emit_transfer-Kept env u k entry _ _ _)
            (λ done v l. record_terminal-Kept env v l entry)))

  refuse-Leads :
      (id : ℕ) (link : DirectedLinkId) (old entry : ChunkRecord)
      → find_chunk id c ≡ some old
      → Follows rule id old entry
      → Leads rule c (refuse env id link entry t)
  unfolding refuse
  refuse-Leads id link old entry found follows =
      after_still (statistics_now-Kept t h link) (λ before u k.
        after_still (use_service-Kept u k link _) (λ done v l.
          after_still (statistics_now-Kept v l link) (λ after w m.
            let x = record w { chunks = set_at id entry w.chunks } in
            let n = ap (set_at id entry) m in
            after_set id old entry found follows (
              still (
                bind (emit_queue-Kept env x n entry link _) (λ queued y o.
                  bind (emit_transfer-Kept env y o entry _ _ _) (λ sent z p.
                    bind (emit_link-Kept env z p link before after)
                      (λ shown q r. record_terminal-Kept env q r entry))))))))

  settle_admission-Leads :
      (id : ℕ) (link : DirectedLinkId) (before : LinkStatistics) (admission : AdmissionResult)
      (old entry : ChunkRecord)
      → find_chunk id c ≡ some old
      → Follows rule id old entry
      → Leads rule c (settle_admission env id link before admission entry t)
  unfolding settle_admission
  settle_admission-Leads id link before admission old entry found follows =
      after_still (statistics_now-Kept t h link) (λ after u k.
        let v = record u { chunks = set_at id entry u.chunks } in
        let l = ap (set_at id entry) k in
        after_set id old entry found follows (
          still (
            bind
              (announce_admission-Kept env v l admission.disposition admission.marked_here link
                entry)
              (λ announced w m.
                bind (emit_link-Kept env w m link before after)
                  (λ shown x n. end_admission-Kept env x n admission.disposition entry)))))

  propagate-Leads :
      (id time : ℕ) (old entry : ChunkRecord)
      → find_chunk id c ≡ some old
      → old.state ≡ admitted
      → entry.state ≡ admitted
      → entry.route ≡ old.route
      → rule.Allows id entry.route admitted awaiting_arrival
      → Leads rule c (propagate env id time entry t)
  unfolding propagate set_chunk
  propagate-Leads id time old entry found at at' route allowed =
      let u = record t { chunks = set_at id entry t.chunks } in
      let k = ap (set_at id entry) h in
      after_set id old entry found (moved_from id admitted at refl route (inl (sym at'))) (
        after_still (schedule_event-Kept env u k _) (λ event v l. record {
          moved = rw l (
              Moving.set_chunk-Moved id entry (propagating event entry) (set_at id entry c)
                (find_chunk_set id old entry c found)
                (moved_from id admitted at' refl refl (inr allowed)));
        }))

module _ {rule : Rule} {G S : Type 0} {c : List (ℕ × ChunkRecord)} (env : Env G S)
    (t : TransportRuntime G S) (h : t.chunks ≡ c) where
  settle_completion-Leads :
      (id : ℕ) (link : DirectedLinkId) (before : LinkStatistics) (time : ℕ)
      (next : Option TransferChunk) (old entry : ChunkRecord)
      → find_chunk id c ≡ some old
      → old.state ≡ admitted
      → entry.state ≡ admitted
      → entry.route ≡ old.route
      → rule.Allows id entry.route admitted awaiting_arrival
      → Leads rule c (settle_completion env id link before time next entry t)
  unfolding settle_completion
  settle_completion-Leads id link before time next old entry found at at' route allowed =
      after_still (statistics_now-Kept t h link) (λ after u k.
        let v = record u { chunks = set_at id entry u.chunks } in
        let l = ap (set_at id entry) k in
        after_set id old entry found (moved_from id admitted at refl route (inl (sym at'))) (
          after_still (emit_queue-Kept env v l entry link _) (λ queued w m.
            after_still (emit_transfer-Kept env w m entry _ _ _) (λ sent x n.
              after_still (announce_next-Kept env x n link next) (λ announced y o.
                after_still (emit_link-Kept env y o link before after) (λ shown z p.
                  propagate-Leads env z p id time entry (next_hop entry)
                    (find_chunk_set id old entry c found) at' at' refl allowed))))))

  enter_link-Leads :
      (id : ℕ) (link : DirectedLinkId) (old entry : ChunkRecord)
      → find_chunk id c ≡ some old
      → old.state ≡ awaiting_arrival
      → entry.state ≡ awaiting_arrival
      → entry.route ≡ old.route
      → ((d : AdmissionDisposition) → rule.Allows id entry.route awaiting_arrival (state_after d))
      → Leads rule c (enter_link env id link entry t)
  unfolding enter_link
  enter_link-Leads id link old entry found at at' route allowed =
      let u = record t { chunks = set_at id entry t.chunks } in
      let k = ap (set_at id entry) h in
      after_set id old entry found (moved_from id awaiting_arrival at refl route (inl (sym at'))) (
        after_still (statistics_now-Kept u k link) (λ before v l.
          after_still (use_service-Kept v l link _) (λ admission w m.
            settle_admission-Leads env w m id link before admission entry (entered admission entry)
              (find_chunk_set id old entry c found)
              (moved_from id awaiting_arrival at' refl refl
                (inr (allowed admission.disposition))))))

  drop_drained-Leads :
      (id : ℕ) (link : DirectedLinkId) (old entry : ChunkRecord)
      → find_chunk id c ≡ some old
      → Follows rule id old entry
      → Leads rule c (drop_drained env id link entry t)
  unfolding drop_drained
  drop_drained-Leads id link old entry found follows =
      let u = record t { chunks = set_at id entry t.chunks } in
      let k = ap (set_at id entry) h in
      after_set id old entry found follows (
        still (
          bind (emit_queue-Kept env u k entry link _) (λ queued v l.
            bind (emit_transfer-Kept env v l entry _ _ _)
              (λ sent w m. record_terminal-Kept env w m entry))))

-- What the queue of a link that works makes of a chunk.
works_at :
    (e : ChunkArrivalEvent) (g : TopologyGraph) (route : List DirectedLinkId)
    (link : DirectedLinkId) (directed : DirectedLink)
    → get_elem? route e.hop_index ≡ some link
    → require_fabric_arc link g ≡ ok directed
    → is_operational directed g ≡ true
    → (d : AdmissionDisposition) → ArrivesIn e g route (state_after d)
works_at e g route link directed here arc up AdmissionDisposition.dropped_buffer_full =
    inr (link, directed, here, arc, inl (up, inr refl))
works_at e g route link directed here arc up service_started =
    inr (link, directed, here, arc, inl (up, inl refl))
works_at e g route link directed here arc up queued =
    inr (link, directed, here, arc, inl (up, inl refl))

module _ {G S : Type 0} {c : List (ℕ × ChunkRecord)} (env : Env G S) (t : TransportRuntime G S)
    (h : t.chunks ≡ c) where
  arrive_at-Leads :
      (e : ChunkArrivalEvent) (entry : ChunkRecord) (link : Option DirectedLinkId)
      → find_chunk e.chunk c ≡ some entry
      → entry.state ≡ awaiting_arrival
      → get_elem? entry.route e.hop_index ≡ link
      → Leads (arrival_rule e t.topology) c (arrive_at env e entry link t)
  unfolding arrive_at
  arrive_at-Leads e entry none found at here = still (same h)
  arrive_at-Leads e entry (some link) found at here =
      after_answer (require_fabric_arc link t.topology) _ t h (λ directed there.
        elim (Bool-cases (is_operational directed t.topology)) [
          | inl works ↦ rw works (
              enter_link-Leads env t h e.chunk link entry (positioned e.hop_index entry) found at at
                refl
                (λ d.
                  (refl, refl, works_at e t.topology entry.route link directed here there works d)))
          | inr broken ↦ rw broken (
              refuse-Leads env t h e.chunk link entry (down_entry entry) found (
                moved_from e.chunk awaiting_arrival at refl refl
                  (inr (refl, refl, inr (link, directed, here, there, inr (broken, refl))))))
        ])

  arrive-Leads :
      (e : ChunkArrivalEvent) (entry : ChunkRecord)
      → find_chunk e.chunk c ≡ some entry
      → entry.state ≡ awaiting_arrival
      → Leads (arrival_rule e t.topology) c (arrive env e entry t)
  unfolding arrive
  arrive-Leads e entry found at = elim (Bool-cases (e.hop_index == length entry.route)) [
    | inl there ↦ rw there (
        deliver-Leads env t h e.chunk entry (delivered_entry entry) found (
          moved_from e.chunk awaiting_arrival at refl refl
            (inr (refl, refl, inl ((==_iff e.hop_index (length entry.route)).0 there, refl)))))
    | inr before ↦
        rw before (arrive_at-Leads e entry (get_elem? entry.route e.hop_index) found at refl)
  ]

  end_service-Leads :
      (e : TransmissionCompleteEvent) (entry : ChunkRecord) (before : LinkStatistics) (time : ℕ)
      → find_chunk e.chunk c ≡ some entry
      → entry.state ≡ admitted
      → Leads (completion_rule e) c (end_service env e entry before time t)
  unfolding end_service
  end_service-Leads e entry before time found at =
      after_still {A = ServiceTransition} (use_service-Kept t h (link_of e) _) (λ transition w m.
        after_require (transition.completed.id == entry.chunk.id) _ _ w m (λ matches.
          settle_completion-Leads env w m e.chunk (link_of e) before time transition.next_started
            entry (serialized transition.completed entry) found at at refl (refl, refl, refl)))

-- The link that `crosses` has found.
direction_eq-true : (a b : LinkDirection) → direction_eq a b ≡ true → a ≡ b
direction_eq-true a_to_b a_to_b h = refl
direction_eq-true b_to_a b_to_a h = refl
direction_eq-true a_to_b b_to_a h = let impossible : ⊥ = cc in absurd impossible
direction_eq-true b_to_a a_to_b h = let impossible : ⊥ = cc in absurd impossible

and_second : (a b : Bool) → (a && b) ≡ true → b ≡ true
and_second true b h = h
and_second false b h = let impossible : ⊥ = cc in absurd impossible

crosses-some :
    (link : DirectedLinkId) (o : Option DirectedLinkId) → crosses link o ≡ true → o ≡ some link
crosses-some link none h = let impossible : ⊥ = cc in absurd impossible
crosses-some link (some crossed) h =
    let number = (==_iff crossed.link link.link).0 (and_first _ _ h) in
    let side = direction_eq-true _ _ (and_second (crossed.link == link.link) _ h) in
    λ i. some (record { link = number i; direction = side i })

-- A chunk that is drained as expected is admitted, and at the link.
drained_at :
    (chunk : TransferChunk) (link : DirectedLinkId) (entry : ChunkRecord)
    → drained_as_expected chunk link entry ≡ true
    → (entry.state ≡ admitted) × (get_elem? entry.route entry.hop_index ≡ some link)
drained_at chunk link entry h = (
  is_admitted-true entry.state (and_first _ _ (and_first _ _ h)),
  crosses-some link _
      (and_second (is_admitted entry.state && entry.hop_index == chunk.hop_index) _ h),
)

module _ {G S : Type 0} {c : List (ℕ × ChunkRecord)} (env : Env G S)
    (Fails : DirectedLinkId → Type 0) (t : TransportRuntime G S) (h : t.chunks ≡ c) where
  pub mark-Leads :
      (link : DirectedLinkId) (chunk : TransferChunk)
      → Fails link
      → Leads (failure_rule Fails) c (mark env link chunk t)
  unfolding mark
  mark-Leads link chunk fails = after_require_chunk chunk.id _ t h (λ entry found.
      after_require (drained_as_expected chunk link entry) not_as_drained
        (λ u v. drop_drained env chunk.id link (drained_entry chunk entry) v) t h
        (λ expected.
          let (admits, crossed) = drained_at chunk link entry expected in
          drop_drained-Leads env t h chunk.id link entry (drained_entry chunk entry) found (
            moved_from chunk.id admitted admits refl refl
              (inr (refl, refl, (entry.hop_index, link, crossed, fails))))))

module _ {G S : Type 0} {c : List (ℕ × ChunkRecord)} (env : Env G S) (t : TransportRuntime G S)
    (h : t.chunks ≡ c) where
  complete_at-Leads :
      (e : TransmissionCompleteEvent) (entry : ChunkRecord)
      → find_chunk e.chunk c ≡ some entry
      → entry.state ≡ admitted
      → Leads (completion_rule e) c (complete_at env e entry t)
  unfolding complete_at
  complete_at-Leads e entry found at =
      after_still (statistics_now-Kept t h (link_of e)) (λ before u k.
        after_still (require_service-Kept u k (link_of e)) (λ service v l.
          after_answer (end_of_propagation env v.simulation.now service)
            (λ time w. end_service env e entry before time w) v l
            (λ time there. end_service-Leads env v l e entry before time found at)))

module _ {G S : Type 0} (env : Env G S) where
  -- Whatever the event, the handlers of arrivals and of completions move its chunk alone.
  pub handle_arrival-Leads :
      (e : ChunkArrivalEvent) (t : TransportRuntime G S)
      → Leads (arrival_rule e t.topology) t.chunks (handle_arrival env e t)
  unfolding handle_arrival
  handle_arrival-Leads e t = after_require_chunk e.chunk _ t refl (λ entry found.
      after_require (is_awaiting entry.state) unexpected_arrival _ t refl (λ awaiting.
        after_answer
          (expected_arrival e entry entry.scheduled_arrival (current_event_id env t.simulation))
          (λ expected u. arrive env e entry u) t refl
          (λ expected there.
            arrive-Leads env t refl e entry found (is_awaiting-true entry.state awaiting))))

  pub handle_completion-Leads :
      (e : TransmissionCompleteEvent) (t : TransportRuntime G S)
      → Leads (completion_rule e) t.chunks (handle_completion env e t)
  unfolding handle_completion
  handle_completion-Leads e t = after_require_chunk e.chunk _ t refl (λ entry found.
      after_require (expected_completion e entry) unexpected_completion
        (λ u v. complete_at env e entry v) t refl
        (λ expected.
          complete_at-Leads env t refl e entry found
            (is_admitted-true entry.state (and_first _ _ (and_first _ _ expected)))))
