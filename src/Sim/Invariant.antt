-- ===== src/Sim/Invariant.antt =====
-- The invariant of the simulation object: sim/simulation.cpp keeps the queue, the two ID sets, the
-- metadata and the clock in step. Every operation of a handler preserves it.
use nexus_lab.Prelude.{
  ℕ, ◌≤◌, ◌<◌, ◌≡◌, refl, sym, ◌∙◌, inl, inr, Bool, true, false, List, ◌∷◌, arith, Bool-cases,
  if◌then◌else◌, has_value, All, contains, Distinct,
}
use nexus_lab.Prelude.Except.{ok}
use nexus_lab.Sim.Event.{Event}
use nexus_lab.Sim.EventId.{EventIdGenerator, bound, IsWord, next-bound, next-exhausted}
use nexus_lab.Sim.EventId
use nexus_lab.Sim.EventQueue.{EventQueue, push, insert, ids, IsSorted}
use nexus_lab.Sim.EventQueue.Order.{insert-IsSorted, contains-insert, insert-Distinct, insert-All}
use nexus_lab.Sim.Trace
use nexus_lab.Sim.EventQueue
use nexus_lab.Sim.Trace.{StopReason}
use nexus_lab.Sim.Env.{Env}
use nexus_lab.Sim.Simulation.{
  Simulation, EventTraceMetadata, find_metadata, event_trace_metadata, new, observed,
}
use nexus_lab.Sim.Context.{enter}
use nexus_lab.Sim.Quiet.{Quiet}

-- The metadata is kept for the pending events, if anything reads it.
abbrev pub Covers : Bool → List (ℕ × EventTraceMetadata) → List ℕ → Type 0
Covers watched table pending =
    watched ≡ true → (a : ℕ) → has_value (find_metadata a table) ≡ contains pending a

pub record Inv {G S : Type 0} (env : Env G S) (s : Simulation G S) : Type 0 where
  pub word : IsWord s.event_ids
  pub sorted : IsSorted s.event_queue.events
  pub unique : Distinct (ids s.event_queue.events)
  pub pending_unique : Distinct s.pending_ids
  pub pending : (a : ℕ) → contains s.pending_ids a ≡ contains (ids s.event_queue.events) a
  pub cancelled_unique : Distinct s.cancelled_ids
  pub cancelled : (a : ℕ) → contains s.cancelled_ids a ≡ true → contains s.pending_ids a ≡ true
  pub fresh : (a : ℕ) → contains s.pending_ids a ≡ true → a < bound s.event_ids
  pub future : All (λ e. s.now ≤ e.timestamp) s.event_queue.events
  pub covered : Covers (observed env s) s.trace_metadata s.pending_ids

module _ {G S : Type 0} (env : Env G S) where
  pub new-Inv : (seed : ℕ) (mode : Trace.TraceMode) (sink : S) → Inv env (new env seed mode sink)
  unfolding new EventId.generator EventQueue.empty_queue
  new-Inv seed mode sink = record {
    word = omega arith;
    sorted = tt;
    unique = tt;
    pending_unique = tt;
    pending = λ a. refl;
    cancelled_unique = tt;
    cancelled = λ a h. cc;
    fresh = λ a h. cc;
    future = tt;
    covered = λ h a. refl;
  }

  -- Observation keeps the invariant.
  pub Quiet-Inv : {s t : Simulation G S} → Quiet env s t → Inv env s → Inv env t
  Quiet-Inv {s} {t} q v = rw q.same (record {
    word = v.word;
    sorted = v.sorted;
    unique = v.unique;
    pending_unique = v.pending_unique;
    pending = v.pending;
    cancelled_unique = v.cancelled_unique;
    cancelled = v.cancelled;
    fresh = v.fresh;
    future = v.future;
    covered = λ h. v.covered (rw (q.mode, q.sink) at h);
  })

  -- The state that `enter` leaves.
  abbrev pub entered : Event → Simulation G S → Simulation G S
  entered e s = record s {
    pending_ids = e.id ∷ s.pending_ids;
    trace_metadata =
        if observed env s
        then (e.id, event_trace_metadata e) ∷ s.trace_metadata
        else s.trace_metadata;
    event_queue = push e s.event_queue;
  }

  -- Under the invariant an event of a new ID enters with no throw.
  pub enter-ok :
      (e : Event) (s : Simulation G S)
      → Inv env s
      → contains s.pending_ids e.id ≡ false
      → enter env e s ≡ (ok tt, entered e s)
  unfolding enter event_trace_metadata
  enter-ok e s v n = elim (Bool-cases (observed env s)) [
    | inl w ↦
        let absent : has_value (find_metadata e.id s.trace_metadata) ≡ false =
          v.covered w e.id ∙ n in
        rw (n, w, absent) refl
    | inr w ↦ rw (n, w) refl
  ]

  entered-fresh :
      (e : Event) (s : Simulation G S)
      → Inv env s
      → e.id < bound s.event_ids
      → (a : ℕ) → contains (e.id ∷ s.pending_ids) a ≡ true
      → a < bound s.event_ids
  entered-fresh e s v b a h = ground (arith, v.fresh a)

  pub entered-Inv :
      (e : Event) (s : Simulation G S)
      → Inv env s
      → contains s.pending_ids e.id ≡ false
      → e.id < bound s.event_ids
      → s.now ≤ e.timestamp
      → Inv env (entered e s)
  unfolding push
  entered-Inv e s v n b f =
      let queued : contains (ids s.event_queue.events) e.id ≡ false = sym (v.pending e.id) ∙ n in
      record {
        word = v.word;
        sorted = insert-IsSorted e _ v.sorted queued;
        unique = insert-Distinct e _ queued v.unique;
        pending_unique = (n, v.pending_unique);
        pending = λ a. ground (arith, contains-insert e s.event_queue.events a, v.pending a);
        cancelled_unique = v.cancelled_unique;
        cancelled = λ a h. ground (arith, v.cancelled a);
        fresh = entered-fresh e s v b;
        future = insert-All _ e _ f v.future;
        covered = λ w a. rw w (ground (arith, v.covered w a));
      }
