-- ===== src/Telemetry/Attribution.antt =====
-- telemetry/summary.hpp and summary.cpp: the time of a job, attributed to the phases it passes.
use nexus_lab.Prelude.{
  ℕ, ◌+◌, ◌-◌, Bool, true, false, not, ◌&&◌, Option, none, some, ltb, if◌then◌else◌, u64_max,
}
use nexus_lab.Prelude.Except.{Error, invalid_argument, logic_error, overflow_error, Result, ok, err}
use nexus_lab.Telemetry.Records.{
  JobTransition, arrived, waiting, admitted, compute_started, compute_completed, collective_started,
  collective_completed, step_completed, succeeded, failed, cancelled, synchronization_started,
  straggler_started,
}

pub record JobAttributionSnapshot : Type 0 where
  pub job : ℕ
  pub scheduling_wait_ns : ℕ
  pub compute_ns : ℕ
  pub communication_ns : ℕ
  pub synchronization_wait_ns : ℕ
  pub straggler_delay_ns : ℕ
  pub terminal_other_ns : ℕ
  pub terminal : Bool

pub data JobPhase : Type 0 where
  scheduling_wait compute communication synchronization_wait straggler_delay terminal_other
        terminal :
      JobPhase

pub record JobState : Type 0 where
  pub snapshot : JobAttributionSnapshot
  pub last_transition : ℕ
  pub phase : JobPhase

-- `JobAttributionSnapshot{job}`
abbrev pub no_time : ℕ → JobAttributionSnapshot
no_time job = record {
  job = job;
  scheduling_wait_ns = 0;
  compute_ns = 0;
  communication_ns = 0;
  synchronization_wait_ns = 0;
  straggler_delay_ns = 0;
  terminal_other_ns = 0;
  terminal = false;
}

abbrev pub duration_overflow : Error
duration_overflow = overflow_error "telemetry attribution duration overflow"

unfoldable pub checked_add : ℕ → ℕ → Result ℕ
checked_add left right =
    if ltb (u64_max - left) right then err duration_overflow else ok (left + right)

abbrev pub and_add : Result ℕ → ℕ → Result ℕ
and_add (ok left) right = checked_add left right
and_add (err e) right = err e

-- `accounted_ns`
unfoldable pub accounted_ns : JobAttributionSnapshot → Result ℕ
accounted_ns s =
    and_add
      (and_add
        (and_add (and_add (checked_add s.scheduling_wait_ns s.compute_ns) s.communication_ns)
          s.synchronization_wait_ns)
        s.straggler_delay_ns)
      s.terminal_other_ns

-- The time of a phase; none is kept for the terminal one.
abbrev pub time_of : JobPhase → JobAttributionSnapshot → ℕ
time_of scheduling_wait s = s.scheduling_wait_ns
time_of compute s = s.compute_ns
time_of communication s = s.communication_ns
time_of synchronization_wait s = s.synchronization_wait_ns
time_of straggler_delay s = s.straggler_delay_ns
time_of terminal_other s = s.terminal_other_ns
time_of terminal s = 0

abbrev pub set_time : JobPhase → ℕ → JobAttributionSnapshot → JobAttributionSnapshot
set_time scheduling_wait sum s = record s { scheduling_wait_ns = sum }
set_time compute sum s = record s { compute_ns = sum }
set_time communication sum s = record s { communication_ns = sum }
set_time synchronization_wait sum s = record s { synchronization_wait_ns = sum }
set_time straggler_delay sum s = record s { straggler_delay_ns = sum }
set_time terminal_other sum s = record s { terminal_other_ns = sum }
set_time terminal sum s = s

abbrev pub is_terminal : JobPhase → Bool
is_terminal terminal = true
is_terminal _ = false

unfoldable pub add_interval : JobAttributionSnapshot → JobPhase → ℕ → Result JobAttributionSnapshot
add_interval s phase duration =
    if is_terminal phase then ok s else elim (checked_add (time_of phase s) duration) [
      | err e ↦ err e
      | ok sum ↦ ok (set_time phase sum s)
    ]

abbrev pub terminal_transition : JobTransition → Bool
terminal_transition succeeded = true
terminal_transition failed = true
terminal_transition cancelled = true
terminal_transition _ = false

abbrev pub is_arrival : JobTransition → Bool
is_arrival arrived = true
is_arrival _ = false

-- A phase that computes goes on; another gives way to `other`.
abbrev pub computing_or : JobPhase → JobPhase → JobPhase
computing_or other compute = compute
computing_or other straggler_delay = straggler_delay
computing_or other _ = other

unfoldable pub next_phase : JobPhase → JobTransition → Bool → JobPhase
next_phase current waiting active = scheduling_wait
next_phase current admitted active = computing_or terminal_other current
next_phase current collective_completed active = computing_or terminal_other current
next_phase current step_completed active = computing_or terminal_other current
next_phase current compute_started active = compute
next_phase current straggler_started active = straggler_delay
next_phase current synchronization_started active = synchronization_wait
next_phase current compute_completed active = if active then communication else synchronization_wait
next_phase current collective_started active = computing_or communication current
next_phase current succeeded active = terminal
next_phase current failed active = terminal
next_phase current cancelled active = terminal
next_phase current arrived active = scheduling_wait

-- The state of a job that is seen first.
abbrev pub first_state : ℕ → ℕ → JobTransition → JobState
first_state job timestamp value =
    if terminal_transition value
    then record {
      snapshot = record (no_time job) { terminal = true };
      last_transition = timestamp;
      phase = terminal;
    }
    else record { snapshot = no_time job; last_transition = timestamp; phase = scheduling_wait }

-- The end of `transition`, with the interval added.
abbrev pub enter_phase : JobState → ℕ → JobTransition → Bool → JobAttributionSnapshot → JobState
enter_phase current timestamp value active snapshot =
    let phase = next_phase current.phase value active in
    record {
      snapshot = record snapshot { terminal = is_terminal phase };
      last_transition = timestamp;
      phase = phase;
    }

abbrev pub after_termination : Error
after_termination = logic_error "job attribution received a transition after termination"

abbrev pub second_arrival : Error
second_arrival = logic_error "job attribution received duplicate arrival"

abbrev pub regressed : Error
regressed = invalid_argument "job attribution timestamp regressed"

-- `transition` behind its tests of a job that is known.
unfoldable pub pass_time : JobState → ℕ → JobTransition → Bool → Result JobState
unfolding add_interval next_phase
pass_time current timestamp value active =
    elim (add_interval current.snapshot current.phase (timestamp - current.last_transition)) [
      | err e ↦ err e
      | ok snapshot ↦ ok (enter_phase current timestamp value active snapshot)
    ]

-- `transition` of a job that is known.
unfoldable pub transition_from : JobState → ℕ → JobTransition → Bool → Result JobState
unfolding pass_time
transition_from current timestamp value active =
    if current.snapshot.terminal
    then err after_termination
    else if is_arrival value
    then err second_arrival
    else if ltb timestamp current.last_transition
    then err regressed
    else pass_time current timestamp value active

unfoldable pub transition : Option JobState → ℕ → ℕ → JobTransition → Bool → Result JobState
unfolding transition_from
transition none job timestamp value active =
    if not (is_arrival value) && not (terminal_transition value)
    then err (logic_error "job attribution must begin with arrival or termination")
    else ok (first_state job timestamp value)
transition (some current) job timestamp value active =
    transition_from current timestamp value active
