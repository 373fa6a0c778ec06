-- ===== src/Telemetry/Balance.antt =====
-- telemetry/summary.cpp: the phases of a job add up to the time since it was first seen.
use nexus_lab.Prelude.{
  ℕ, ◌+◌, ◌-◌, ◌≤◌, ◌<◌, ◌≡◌, ◌⊎◌, refl, sym, ap, ◌∙◌, inl, inr, Bool, true, false, arith, ltb,
  Bool-cases, ltb→lt, u64_max,
}
use nexus_lab.Prelude.Except.{Error, ok, err}
use nexus_lab.Telemetry.Records.{JobTransition}
use nexus_lab.Telemetry.Attribution.{
  JobAttributionSnapshot, JobPhase, JobState, scheduling_wait, compute, communication,
  synchronization_wait, straggler_delay, terminal_other, terminal, checked_add, accounted_ns,
  time_of, set_time, is_terminal, add_interval, is_arrival, next_phase, after_termination,
  second_arrival, regressed, enter_phase, pass_time, transition_from,
}

-- The time of all phases.
abbrev pub total : JobAttributionSnapshot → ℕ
total s =
    s.scheduling_wait_ns + s.compute_ns + s.communication_ns + s.synchronization_wait_ns
    + s.straggler_delay_ns + s.terminal_other_ns

-- The phases add up to the time from `start` to the last transition, and the job is marked terminal
-- exactly in the terminal phase.
pub record Balanced (start : ℕ) (s : JobState) : Type 0 where
  pub sum : total s.snapshot + start ≡ s.last_transition
  pub marked : s.snapshot.terminal ≡ is_terminal s.phase

small_sum : (left right : ℕ) → left + right ≤ u64_max → checked_add left right ≡ ok (left + right)
unfolding checked_add
small_sum left right fits = ground arith

-- `accounted_ns` is the time of all phases where that fits 64 bits.
pub accounted_ns-total :
    (s : JobAttributionSnapshot) → total s ≤ u64_max → accounted_ns s ≡ ok (total s)
unfolding accounted_ns
accounted_ns-total s fits =
    rw
      (
        small_sum s.scheduling_wait_ns s.compute_ns (omega (arith, fits)),
        small_sum (s.scheduling_wait_ns + s.compute_ns) s.communication_ns (omega (arith, fits)),
        small_sum (s.scheduling_wait_ns + s.compute_ns + s.communication_ns)
            s.synchronization_wait_ns (omega (arith, fits)),
        small_sum
            (s.scheduling_wait_ns + s.compute_ns + s.communication_ns + s.synchronization_wait_ns)
            s.straggler_delay_ns (omega (arith, fits)),
        small_sum
            (s.scheduling_wait_ns + s.compute_ns + s.communication_ns + s.synchronization_wait_ns
              + s.straggler_delay_ns)
            s.terminal_other_ns fits,
      )
      refl

pub total-set_time :
    (phase : JobPhase) (s : JobAttributionSnapshot) (duration : ℕ)
    → is_terminal phase ≡ false
    → total (set_time phase (time_of phase s + duration) s) ≡ total s + duration
total-set_time scheduling_wait s duration h = omega arith
total-set_time compute s duration h = omega arith
total-set_time communication s duration h = omega arith
total-set_time synchronization_wait s duration h = omega arith
total-set_time straggler_delay s duration h = omega arith
total-set_time terminal_other s duration h = omega arith
total-set_time terminal s duration h = let impossible : ⊥ = cc in absurd impossible

pub time_of-total : (phase : JobPhase) (s : JobAttributionSnapshot) → time_of phase s ≤ total s
time_of-total scheduling_wait s = omega arith
time_of-total compute s = omega arith
time_of-total communication s = omega arith
time_of-total synchronization_wait s = omega arith
time_of-total straggler_delay s = omega arith
time_of-total terminal_other s = omega arith
time_of-total terminal s = omega arith

-- A step of a job that is not terminal, at a time from the last one on.
pub record Steps (start : ℕ) (current : JobState) (timestamp : ℕ) (value : JobTransition)
    (active : Bool) (next : JobState) : Type 0 where
  pub balanced : Balanced start next
  pub now : next.last_transition ≡ timestamp
  pub entered : next.phase ≡ next_phase current.phase value active
  pub going : current.snapshot.terminal ≡ false
  pub later : current.last_transition ≤ timestamp

-- How a transition of a known job answers.
abbrev pub TransitionAnswers : ℕ → JobState → ℕ → JobTransition → Bool → Type 0
TransitionAnswers start current timestamp value active =
    ((next : JobState) × (transition_from current timestamp value active ≡ ok next)
      × Steps start current timestamp value active next
      × (accounted_ns next.snapshot ≡ ok (timestamp - start)))
    ⊎ (((e : Error) × (transition_from current timestamp value active ≡ err e))
        × ((current.snapshot.terminal ≡ true)
            ⊎ (is_arrival value ≡ true)
            ⊎ (timestamp < current.last_transition)))

pub add_interval_sum :
    (s : JobAttributionSnapshot) (phase : JobPhase) (duration : ℕ)
    → is_terminal phase ≡ false
    → time_of phase s + duration ≤ u64_max
    → add_interval s phase duration ≡ ok (set_time phase (time_of phase s + duration) s)
unfolding add_interval
add_interval_sum s phase duration open_phase fits =
    rw (open_phase, small_sum (time_of phase s) duration fits) refl

-- The next state behind the tests.
passed :
    (start timestamp : ℕ) (current : JobState) (value : JobTransition) (active : Bool)
    → Balanced start current
    → timestamp ≤ u64_max
    → current.snapshot.terminal ≡ false
    → current.last_transition ≤ timestamp
    → (next : JobState) × (pass_time current timestamp value active ≡ ok next)
      × Steps start current timestamp value active next
      × (accounted_ns next.snapshot ≡ ok (timestamp - start))
unfolding pass_time
passed start timestamp current value active i fits going later =
    let duration : ℕ = timestamp - current.last_transition in
    let open_phase : is_terminal current.phase ≡ false = sym i.marked ∙ going in
    let held = time_of-total current.phase current.snapshot in
    let s =
      set_time current.phase (time_of current.phase current.snapshot + duration) current.snapshot in
    let grown : total s ≡ total current.snapshot + duration =
      total-set_time current.phase current.snapshot duration open_phase in
    let sum : total s + start ≡ timestamp = omega (arith, grown, i.sum, later) in
    let next : JobState = enter_phase current timestamp value active s in
    (
      next,
      rw
          (
            add_interval_sum current.snapshot current.phase duration open_phase
                (omega (arith, held, i.sum, fits, later)),
            pass_time,
          )
          refl,
      record {
        balanced = record { sum = sum; marked = refl };
        now = refl;
        entered = refl;
        going = going;
        later = later;
      },
      accounted_ns-total next.snapshot (omega (arith, sum, fits))
          ∙ ap (λ n. ok n) (omega (arith, sum)),
    )

-- A job whose phases add up goes, at any later 64-bit time, to the phase that the transition names,
-- and its phases then add up to the time since it was first seen; only after its end, for a second
-- arrival or at an earlier time is there an exception. No sum of durations overflows.
pub transition_cases :
    (start timestamp : ℕ) (current : JobState) (value : JobTransition) (active : Bool)
    → Balanced start current
    → timestamp ≤ u64_max
    → TransitionAnswers start current timestamp value active
unfolding transition_from
transition_cases start timestamp current value active i fits =
    elim (Bool-cases current.snapshot.terminal) [
      | inl ended ↦ inr ((after_termination, simp ended refl), inl ended)
      | inr going ↦ elim (Bool-cases (is_arrival value)) [
        | inl again ↦ inr ((second_arrival, simp (going, again) refl), inr (inl again))
        | inr other ↦ elim (Bool-cases (ltb timestamp current.last_transition)) [
          | inl early ↦
              inr ((regressed, simp (going, other, early) refl), inr (inr (ltb→lt _ _ early)))
          | inr late ↦
              let (next, same, steps, accounted) =
                passed start timestamp current value active i fits going (ground arith) in
              inl (next, simp (going, other, late) same, steps, accounted)
        ]
      ]
    ]
