-- ===== src/Transport/LinkQueue/Bounds.antt =====
-- The byte accounting of transport/link_queue.cpp.
use nexus_lab.Prelude.{
  ℕ, ◌+◌, ◌-◌, ◌≤◌, ◌<◌, ◌≡◌, refl, ap, ◌≢◌, ◌⊎◌, inl, inr, false, Option, none, some, List, [],
  ◌∷◌, ◌++◌, arith, length, ltb, All, All-append, ◌==◌, ◌||◌, ==_iff, Bool-cases, Option-cases,
}
use nexus_lab.Prelude.Except.{Error, invalid_argument, ok, err}
use nexus_lab.Transport.LinkQueue.{
  DirectedLinkConfiguration, TransferChunk, DirectedLinkQueue, validate_configuration,
  validate_threshold, empty_queue, new_queue, enqueue, reaches, dropped_buffer_full, admit,
  start_next, complete_active, complete_service, drain,
}

abbrev pub total_bytes : List TransferChunk → ℕ
total_bytes [] = 0
total_bytes (c ∷ cs) = c.bytes + total_bytes cs

pub total_bytes-append :
    (cs ds : List TransferChunk) → total_bytes (cs ++ ds) ≡ total_bytes cs + total_bytes ds
total_bytes-append [] ds = omega arith
total_bytes-append (c ∷ cs) ds = omega (arith, total_bytes-append cs ds)

pub record Inv (q : DirectedLinkQueue) : Type 0 where
  pub accounted : q.waiting_bytes ≡ total_bytes q.waiting
  pub within : q.waiting_bytes ≤ q.configuration.waiting_buffer_capacity
  pub high : q.waiting_bytes ≤ q.maximum_waiting_bytes
  pub high_within : q.maximum_waiting_bytes ≤ q.configuration.waiting_buffer_capacity
  pub high_chunks : length q.waiting ≤ q.maximum_waiting_chunks
  pub nonempty : All (λ c. 0 < c.bytes) q.waiting
  -- a link that serves nothing has nothing waiting
  pub busy : (q.active ≢ none) ⊎ (q.waiting ≡ [])

pub empty_queue-Inv : (c : DirectedLinkConfiguration) → Inv (empty_queue c)
empty_queue-Inv c = record {
  accounted = refl;
  within = omega arith;
  high = omega arith;
  high_within = omega arith;
  high_chunks = omega arith;
  nonempty = tt;
  busy = inr refl;
}

-- A threshold is acceptable if it is off, or between 1 and the capacity.
abbrev pub ThresholdFits : Option ℕ → ℕ → Type 0
ThresholdFits none capacity = Unit {0}
ThresholdFits (some threshold) capacity = (0 < threshold) × (threshold ≤ capacity)

validate_threshold-Fits :
    (threshold : Option ℕ) (capacity : ℕ)
    → ((validate_threshold threshold capacity ≡ ok tt) × ThresholdFits threshold capacity)
      ⊎ ((e : Error) × (validate_threshold threshold capacity ≡ err e)
          × ¬ ThresholdFits threshold capacity)
unfolding validate_threshold
validate_threshold-Fits none capacity = inl (refl, tt)
validate_threshold-Fits (some threshold) capacity = elim (Bool-cases (threshold == 0)) [
  | inl z ↦ inr (
    invalid_argument "marking threshold must be nonzero when enabled",
    rw z refl,
    λ f. ground arith,
  )
  | inr z ↦ elim (Bool-cases (ltb capacity threshold)) [
    | inl l ↦ inr (
      invalid_argument "marking threshold exceeds waiting-buffer capacity",
      rw (z, l) refl,
      λ f. ground arith,
    )
    | inr l ↦ inl (rw (z, l) refl, (ground arith, ground arith))
  ]
]

validate_configuration_cases :
    (c : DirectedLinkConfiguration)
    → ((validate_configuration c ≡ ok tt)
        × (0 < c.bandwidth)
        × ThresholdFits c.marking_threshold c.waiting_buffer_capacity)
      ⊎ ((e : Error) × (validate_configuration c ≡ err e)
          × ((c.bandwidth ≡ 0) ⊎ ¬ ThresholdFits c.marking_threshold c.waiting_buffer_capacity))
unfolding validate_configuration
validate_configuration_cases c = elim (Bool-cases (c.bandwidth == 0)) [
  | inl z ↦ inr (
    invalid_argument "directed-link bandwidth must be nonzero",
    rw z refl,
    inl ((==_iff _ _).0 z),
  )
  | inr z ↦ elim (validate_threshold-Fits c.marking_threshold c.waiting_buffer_capacity) [
    | inl (e, f) ↦ inl (rw z e, ground arith, f)
    | inr (x, e, f) ↦ inr (x, rw z e, inr f)
  ]
]

-- Whether a queue is made, and which.
abbrev pub Made : DirectedLinkConfiguration → Type 0
Made c =
    ((new_queue c ≡ ok (empty_queue c))
      × (0 < c.bandwidth)
      × ThresholdFits c.marking_threshold c.waiting_buffer_capacity
      × Inv (empty_queue c))
    ⊎ ((e : Error) × (new_queue c ≡ err e)
        × ((c.bandwidth ≡ 0) ⊎ ¬ ThresholdFits c.marking_threshold c.waiting_buffer_capacity))

-- A queue is made, empty and with its accounts in order, exactly for a nonzero bandwidth and a
-- threshold that is off or between 1 and the capacity.
pub new_queue_cases : (c : DirectedLinkConfiguration) → Made c
unfolding new_queue
new_queue_cases c = elim (validate_configuration_cases c) [
  | inl (e, wide, fits) ↦ inl (rw (e, new_queue) refl, wide, fits, empty_queue-Inv c)
  | inr (x, e, bad) ↦ inr (x, rw (e, new_queue) refl, bad)
]

enqueue-Inv :
    (chunk : TransferChunk) (q : DirectedLinkQueue)
    → Inv q
    → 0 < chunk.bytes
    → chunk.bytes ≤ q.configuration.waiting_buffer_capacity - q.waiting_bytes
    → q.active ≢ none
    → Inv (enqueue chunk q).1
unfolding enqueue
enqueue-Inv chunk q v nonzero fits busy = record {
  accounted = omega (arith, v.accounted, total_bytes-append q.waiting (marked ∷ []));
  within = omega (arith, v.within);
  high = omega arith;
  high_within = omega (arith, v.within, v.high_within);
  high_chunks = omega arith;
  nonempty = All-append _ q.waiting (marked ∷ []) v.nonempty (nonzero, tt);
  busy = inl busy;
}
  where
    marked : TransferChunk
    marked = record chunk {
      marked =
          chunk.marked || reaches (q.waiting_bytes + chunk.bytes) q.configuration.marking_threshold;
    }

-- Every admission, on every branch, keeps the accounts in order: the waiting bytes are those of the waiting
-- chunks, within the capacity, and nothing waits while nothing is served.
pub admit-Inv : (chunk : TransferChunk) (q : DirectedLinkQueue) → Inv q → Inv (admit chunk q).1
unfolding admit
admit-Inv chunk q v = elim (Bool-cases (chunk.bytes == 0)) [
  | inl z ↦ rw z v
  | inr z ↦ elim (Option-cases q.active) [
    | inl idle ↦
        simp (z, idle)
          (record {
            accounted = v.accounted;
            within = v.within;
            high = v.high;
            high_within = v.high_within;
            high_chunks = v.high_chunks;
            nonempty = v.nonempty;
            busy = inl (λ e. cc);
          })
    | inr (c, active) ↦
        elim (Bool-cases
          (ltb (q.configuration.waiting_buffer_capacity - q.waiting_bytes) chunk.bytes)) [
            | inl full ↦
                let same : admit chunk q
                    ≡ (ok (record { disposition = dropped_buffer_full; marked_here = false }), q) =
                  simp (z, active, full) in
                rw same v
            | inr room ↦
                let same : admit chunk q ≡ enqueue chunk q = simp (z, active, room) in
                rw same (enqueue-Inv chunk q v (ground arith) (ground arith) (λ e. cc))
          ]
  ]
]

start_next-Inv :
    (done : TransferChunk) (waiting : List TransferChunk) (q : DirectedLinkQueue)
    → q.waiting ≡ waiting
    → Inv q
    → Inv (start_next done waiting q).1
unfolding start_next
start_next-Inv done [] q w v = record {
  accounted = v.accounted;
  within = v.within;
  high = v.high;
  high_within = v.high_within;
  high_chunks = v.high_chunks;
  nonempty = v.nonempty;
  busy = inr w;
}
start_next-Inv done (next ∷ rest) q w v = record {
  accounted = omega (arith, v.accounted, ap total_bytes w);
  within = omega (arith, v.within);
  high = omega (arith, v.high);
  high_within = v.high_within;
  high_chunks = omega (arith, v.high_chunks, ap length w);
  nonempty = (rw w at v.nonempty).1;
  busy = inl (λ e. cc);
}

complete_active-Inv :
    (active : Option TransferChunk) (q : DirectedLinkQueue)
    → Inv q
    → Inv (complete_active active q).1
unfolding complete_active
complete_active-Inv none q v = v
complete_active-Inv (some done) q v = start_next-Inv done q.waiting q refl v

-- The end of a service keeps the accounts in order.
pub complete_service-Inv : (q : DirectedLinkQueue) → Inv q → Inv (complete_service q).1
unfolding complete_service
complete_service-Inv q v = complete_active-Inv q.active q v

-- So does the drain of a link that goes down.
pub drain-Inv : (q : DirectedLinkQueue) → Inv q → Inv (drain q).1
unfolding drain
drain-Inv q v = record {
  accounted = refl;
  within = omega arith;
  high = omega arith;
  high_within = v.high_within;
  high_chunks = omega arith;
  nonempty = tt;
  busy = inr refl;
}
