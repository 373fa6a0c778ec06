-- ===== src/Sim/EventId.antt =====
-- sim/event_id.cpp: the sequence of event identities, one for each 64-bit value.
use nexus_lab.Prelude.{
  ℕ, ◌+◌, ◌≤◌, ◌≡◌, Bool, true, false, arith, ◌==◌, if◌then◌else◌, u64_max, u64_mod,
}
use nexus_lab.Prelude.Except.{overflow_error, ok, err}
use nexus_lab.Prelude.State.{M}

pub record EventIdGenerator : Type 0 where
  pub next_value : ℕ
  pub exhausted : Bool

unfoldable pub generator : ℕ → EventIdGenerator
generator next_value = record { next_value = next_value; exhausted = false }

unfoldable pub next : M EventIdGenerator ℕ
next g = if g.exhausted then (err (overflow_error "event ID sequence exhausted"), g) else (
  ok g.next_value,
  if g.next_value == u64_max
      then record g { exhausted = true }
      else record g { next_value = g.next_value + 1 },
)

-- The IDs below this bound are given out.
abbrev pub bound : EventIdGenerator → ℕ
bound g = if g.exhausted then u64_mod else g.next_value

abbrev pub IsWord : EventIdGenerator → Type 0
IsWord g = g.next_value ≤ u64_max

-- While the sequence lasts, `next` gives the bound itself, which is a 64-bit value, and moves the
-- bound past it.
pub next-bound :
    (g : EventIdGenerator)
    → IsWord g
    → g.exhausted ≡ false
    → ((next g).0 ≡ ok (bound g))
      × (bound g ≤ u64_max)
      × (bound (next g).1 ≡ bound g + 1)
      × IsWord (next g).1
unfolding next
next-bound g w h = ground arith

pub next-exhausted :
    (g : EventIdGenerator)
    → g.exhausted ≡ true
    → next g ≡ (err (overflow_error "event ID sequence exhausted"), g)
unfolding next
next-exhausted g h = ground arith
