-- ===== src/Sim/Dispatching.antt =====
-- `next_dispatchable_event` of sim/simulation.cpp: which event comes next, and that the loop ends.
use nexus_lab.Prelude.{
  ℕ, zero, suc, ◌+◌, ◌≤◌, ◌<◌, ◌≡◌, refl, ap, ◌⊎◌, inl, inr, true, false, Option, none, some, List,
  [], ◌∷◌, arith, Bool-cases, ◌==◌, if◌then◌else◌, contains, has_value, length, All, contains-erase,
  erase-Distinct, ==_refl,
}
use nexus_lab.Sim.Event.{Event}
use nexus_lab.Sim.EventQueue.{EventQueue, ids, Precedes, size}
use nexus_lab.Sim.EventQueue.Order.{pop-Precedes}
use nexus_lab.Sim.Env.{Env}
use nexus_lab.Sim.Simulation.{
  Simulation, EventTraceMetadata, find_metadata, erase_metadata, event_id,
}
use nexus_lab.Sim.Run.{take_event, dispatchable_loop, next_dispatchable_event}
use nexus_lab.Sim.Invariant.{Inv}

find-erase_metadata :
    (a b : ℕ) (table : List (ℕ × EventTraceMetadata))
    → has_value (find_metadata b (erase_metadata a table))
      ≡ (if a == b then false else has_value (find_metadata b table))
find-erase_metadata a b [] = ground arith
find-erase_metadata a b ((i, m) ∷ table) = ground (arith, find-erase_metadata a b table)

module _ {G S : Type 0} (env : Env G S) where
  -- The head of the queue is taken out of everything.
  take_event-Inv :
      (e : Event) (rest : EventQueue) (s : Simulation G S)
      → Inv env s
      → s.event_queue.events ≡ e ∷ rest.events
      → Inv env (take_event e rest s).1
  unfolding take_event
  take_event-Inv e rest s v q =
      let sorted = rw q at v.sorted in
      let unique = rw q at v.unique in
      let future = rw q at v.future in
      let split : (a : ℕ) → contains s.pending_ids a ≡ contains (e.id ∷ ids rest.events) a =
        λ a. rw q at (v.pending a) in
      record {
        word = v.word;
        sorted = sorted.1;
        unique = unique.1;
        pending_unique = erase-Distinct e.id s.pending_ids v.pending_unique;
        pending = λ a. ground (arith, contains-erase e.id a s.pending_ids, split a, unique.0);
        cancelled_unique = erase-Distinct e.id s.cancelled_ids v.cancelled_unique;
        cancelled = λ a h. ground (
          arith,
          contains-erase e.id a s.cancelled_ids,
          contains-erase e.id a s.pending_ids,
          v.cancelled a,
        );
        fresh = λ a h. ground (arith, contains-erase e.id a s.pending_ids, v.fresh a);
        future = future.1;
        covered = λ w a. ground (
          arith,
          contains-erase e.id a s.pending_ids,
          find-erase_metadata e.id a s.trace_metadata,
          v.covered w a,
        );
      }

  -- The queue is used up, or the answer is an event that was pending and not cancelled, is no longer
  -- pending, is not in the past, and precedes every event that is left.
  abbrev pub Answers : Simulation G S → Option Event × Simulation G S → Type 0
  Answers s answer =
      ((answer.0 ≡ none) × (answer.1.event_queue.events ≡ []))
      ⊎ ((e : Event) × (answer.0 ≡ some e)
          × (contains s.pending_ids e.id ≡ true)
          × (contains s.cancelled_ids e.id ≡ false)
          × (contains answer.1.pending_ids e.id ≡ false)
          × (s.now ≤ e.timestamp)
          × All (Precedes e) answer.1.event_queue.events)

  -- What `next_dispatchable_event` answers, and what it leaves behind.
  pub record Next (s : Simulation G S) (answer : Option Event × Simulation G S) : Type 0 where
    pub kept : Inv env answer.1
    -- only the queue, the ID sets and the metadata change
    pub same : answer.1 ≡ record s {
      event_queue = answer.1.event_queue;
      pending_ids = answer.1.pending_ids;
      cancelled_ids = answer.1.cancelled_ids;
      trace_metadata = answer.1.trace_metadata;
    }
    pub result : Answers s answer
    -- no event that was pending and not cancelled is lost
    pub live :
        (a : ℕ)
        → contains s.pending_ids a ≡ true
        → contains s.cancelled_ids a ≡ false
        → (event_id answer.0 ≡ some a) ⊎ (contains answer.1.pending_ids a ≡ true)

  module _ (e : Event) (rest : EventQueue) (s : Simulation G S) (v : Inv env s)
      (q : s.event_queue.events ≡ e ∷ rest.events) (first : All (Precedes e) rest.events) where
    head_pending : contains s.pending_ids e.id ≡ true
    head_pending =
        let split : contains s.pending_ids e.id ≡ contains (e.id ∷ ids rest.events) e.id =
          rw q at (v.pending e.id) in
        ground (arith, ==_refl e.id)

    -- A cancelled head is skipped.
    skipped :
        {answer : Option Event × Simulation G S}
        → contains s.cancelled_ids e.id ≡ true
        → Next (take_event e rest s).1 answer
        → Next s answer
    unfolding take_event
    skipped {answer} c n = record {
      kept = n.kept;
      same = n.same;
      result = elim n.result [
        | inl r ↦ inl r
        | inr (a, r, p, u, g, f, b) ↦ inr (
          a,
          r,
          ground (arith, contains-erase e.id a.id s.pending_ids),
          ground (
            arith,
            contains-erase e.id a.id s.pending_ids,
            contains-erase e.id a.id s.cancelled_ids,
          ),
          g,
          f,
          b,
        )
      ];
      live = λ a p u.
          n.live a (ground (arith, contains-erase e.id a s.pending_ids))
            (ground (arith, contains-erase e.id a s.cancelled_ids));
    }

    -- A head that is not cancelled is the answer.
    answered : contains s.cancelled_ids e.id ≡ false → Next s (some e, (take_event e rest s).1)
    unfolding take_event
    answered c = record {
      kept = take_event-Inv e rest s v q;
      same = refl;
      result = inr (
        e,
        refl,
        head_pending,
        c,
        ground (arith, contains-erase e.id e.id s.pending_ids, ==_refl e.id),
        (rw q at v.future).0,
        first,
      );
      live = λ a p u. ground (arith, contains-erase e.id a s.pending_ids);
    }

  dispatchable_loop-Next :
      (fuel : ℕ) (s : Simulation G S)
      → Inv env s
      → size s.event_queue < fuel
      → Next s (dispatchable_loop fuel s)
  unfolding dispatchable_loop size take_event
  dispatchable_loop-Next zero s v f = absurd (omega arith)
  dispatchable_loop-Next (suc fuel) s v f = elim (pop-Precedes s.event_queue v.sorted) [
    | inl (empty, p) ↦
        rw (p, dispatchable_loop)
          (record {
            kept = v;
            same = refl;
            result = inl (refl, empty);
            live = λ a h u.
                let none_left : contains s.pending_ids a ≡ false = rw empty at (v.pending a) in cc;
          })
    | inr (e, rest, p, q, first) ↦ elim (Bool-cases (contains s.cancelled_ids e.id)) [
      | inl c ↦
          rw (p, dispatchable_loop, p, c)
            (skipped e rest s v q first c (
              dispatchable_loop-Next fuel (take_event e rest s).1 (take_event-Inv e rest s v q)
                (shorter e rest q)))
      | inr c ↦ rw (p, dispatchable_loop, p, c) (answered e rest s v q first c)
    ]
  ]
    where
      shorter :
          (e : Event) (rest : EventQueue)
          → s.event_queue.events ≡ e ∷ rest.events
          → size (take_event e rest s).1.event_queue < fuel
      shorter e rest q = omega (arith, ap length q)

  -- Under the invariant the search for the next event ends within the size of the queue and one more
  -- rounds. It keeps the invariant and changes only the queue, the ID sets and the metadata; it
  -- answers an event that was pending, not cancelled and not in the past, and that precedes every
  -- event left, or none when the queue is used up; and it loses no event that was not cancelled.
  pub next_dispatchable_event-Next :
      (s : Simulation G S) → Inv env s → Next s (next_dispatchable_event s)
  unfolding next_dispatchable_event
  next_dispatchable_event-Next s v =
      dispatchable_loop-Next (size s.event_queue + 1) s v (omega arith)
