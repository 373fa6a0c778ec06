-- ===== src/Sim/Time.antt =====
-- sim/time.hpp: simulated time in whole nanoseconds. A time and a duration are their `count()`.
use nexus_lab.Prelude.{
  ℕ, ◌+◌, ◌-◌, ◌*◌, ◌/◌, ◌≤◌, ◌<◌, ◌≡◌, ◌⊎◌, Option, none, some, arith, ltb, ◌==◌, ◌||◌,
  if◌then◌else◌, u64_max,
}

pub data SimTimeUnit : Type 0 where
  nanoseconds microseconds milliseconds seconds : SimTimeUnit

abbrev pub multiplier : SimTimeUnit → ℕ
multiplier nanoseconds = 1
multiplier microseconds = 1000
multiplier milliseconds = 1000000
multiplier seconds = 1000000000

unfoldable pub checked_duration_from : ℕ → SimTimeUnit → Option ℕ
checked_duration_from count unit =
    if multiplier unit == 0 || ltb (u64_max / multiplier unit) count
    then none
    else some (count * multiplier unit)

unfoldable pub checked_add : ℕ → ℕ → Option ℕ
checked_add time duration = if ltb (u64_max - time) duration then none else some (time + duration)

unfoldable pub checked_difference : ℕ → ℕ → Option ℕ
checked_difference end begin = if ltb end begin then none else some (end - begin)

-- A conversion gives the exact product, and fails exactly when that exceeds 64 bits.
checked_duration_from_exact :
    (count : ℕ) (unit : SimTimeUnit)
    → ((count * multiplier unit ≤ u64_max)
        × (checked_duration_from count unit ≡ some (count * multiplier unit)))
      ⊎ ((u64_max < count * multiplier unit) × (checked_duration_from count unit ≡ none))
unfolding checked_duration_from
checked_duration_from_exact count nanoseconds = ground arith
checked_duration_from_exact count microseconds = ground arith
checked_duration_from_exact count milliseconds = ground arith
checked_duration_from_exact count seconds = ground arith

-- Of a 64-bit time, a checked sum is the exact sum, and fails exactly when that exceeds 64 bits.
checked_add_exact :
    (time duration : ℕ)
    → time ≤ u64_max
    → ((time + duration ≤ u64_max) × (checked_add time duration ≡ some (time + duration)))
      ⊎ ((u64_max < time + duration) × (checked_add time duration ≡ none))
unfolding checked_add
checked_add_exact time duration h = ground arith

-- The difference of a later time undoes a checked sum.
pub checked_difference-checked_add :
    (time duration later : ℕ)
    → checked_add time duration ≡ some later
    → checked_difference later time ≡ some duration
unfolding checked_add checked_difference
checked_difference-checked_add time duration later h = ground arith
