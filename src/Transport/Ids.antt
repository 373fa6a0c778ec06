-- ===== src/Transport/Ids.antt =====
-- transport/types.hpp: the sequence of transfer and chunk identities.
use nexus_lab.Prelude.{
  ℕ, ◌+◌, ◌-◌, ◌≤◌, ◌<◌, ◌≡◌, ◌⊎◌, Bool, true, false, arith, leb, ltb, ◌==◌, ◌||◌, if◌then◌else◌,
  u64_max, u64_mod,
}
use nexus_lab.Prelude.Except.{overflow_error, ok, err}
use nexus_lab.Prelude.State.{M}

pub record IdGenerator : Type 0 where
  pub next_value : ℕ
  pub exhausted : Bool

unfoldable pub can_generate : ℕ → IdGenerator → Bool
can_generate count g =
    if count == 0
    then true
    else if g.exhausted
    then false
    else leb (count - 1) (u64_max - g.next_value)

unfoldable pub next : M IdGenerator ℕ
unfolding can_generate
next g =
    if can_generate 1 g
    then (
      ok g.next_value,
      if g.next_value == u64_max
          then record g { exhausted = true }
          else record g { next_value = g.next_value + 1 },
    )
    else (err (overflow_error "transport ID sequence exhausted"), g)

unfoldable pub advance_past : ℕ → IdGenerator → IdGenerator
advance_past id g =
    if g.exhausted || ltb id g.next_value
    then g
    else if id == u64_max
    then record g { exhausted = true }
    else record g { next_value = id + 1 }

-- The IDs below this bound are used up.
abbrev pub bound : IdGenerator → ℕ
bound g = if g.exhausted then u64_mod else g.next_value

abbrev pub IsWord : IdGenerator → Type 0
IsWord g = g.next_value ≤ u64_max

-- Whether `count` IDs are left, as the test answers it.
abbrev HasLeft : ℕ → IdGenerator → Type 0
HasLeft count g =
    ((can_generate count g ≡ true) × (bound g + count ≤ u64_mod))
    ⊎ ((can_generate count g ≡ false) × (u64_mod < bound g + count))

-- `can_generate` holds exactly when so many 64-bit IDs are left.
can_generate-bound : (count : ℕ) (g : IdGenerator) → IsWord g → HasLeft count g
unfolding can_generate
can_generate-bound count g w = ground arith

-- What `next` and `advance_past` do.
abbrev pub Generates : ℕ → IdGenerator → Type 0
Generates id g =
    (((next g).0 ≡ ok (bound g)) × (bound (next g).1 ≡ bound g + 1) × (bound g ≤ u64_max)
      ⊎ ((next g ≡ (err (overflow_error "transport ID sequence exhausted"), g))
          × (bound g ≡ u64_mod)))
    × (id < bound (advance_past id g))
    × ((bound (advance_past id g) ≡ bound g) ⊎ (bound (advance_past id g) ≡ id + 1))
    × (bound g ≤ bound (advance_past id g))
    × IsWord (next g).1
    × IsWord (advance_past id g)

-- Of a generator and an ID of 64 bits: `next` gives the first unused ID and moves past it, or throws and changes nothing when none is
-- left; `advance_past` uses up an ID and all below it, and gives no used ID back.
next-advance_past : (id : ℕ) (g : IdGenerator) → IsWord g → id ≤ u64_max → Generates id g
unfolding next advance_past
next-advance_past id g w h = ground arith
