-- ===== src/Sim/Rng.antt =====
-- sim/deterministic_rng.cpp: draws from an engine, and the rejection loop of `uniform_below`. The
-- engine is `std::mt19937_64`, a parameter: `draw` is its call operator.
use nexus_lab.Prelude.{
  ℕ, zero, suc, ◌+◌, ◌-◌, ◌*◌, ◌/◌, ◌%◌, ◌≤◌, ◌<◌, ◌≡◌, refl, inl, inr, false, Option, none, some,
  arith, leb, ◌==◌, if◌then◌else◌, u64_mod, Bool-cases, leb→le,
}
use native.Mathlib.Nat.{div-add-mod, mod-le, mul-mod_right}
use nexus_lab.Prelude.Except.{invalid_argument, Result, ok, err}

pub record DeterministicRng (G : Type 0) : Type 0 where
  pub engine : G
  pub draw_count : ℕ

unfoldable pub rejection_threshold : ℕ → ℕ
rejection_threshold upper = (u64_mod - upper) % upper

abbrev pub accept :
    {G : Type 0} → Option (ℕ × DeterministicRng G) → Option (Result ℕ × DeterministicRng G)
accept none = none
accept (some (value, r')) = some (ok value, r')

module _ {G : Type 0} (draw : G → ℕ × G) where
  unfoldable pub next_u64 : DeterministicRng G → ℕ × DeterministicRng G
  next_u64 r =
      let (value, engine) = draw r.engine in
      (value, record { engine = engine; draw_count = (r.draw_count + 1) % u64_mod })

  -- The rejection loop, for at most `fuel` draws.
  unfoldable pub reject_below : ℕ → ℕ → DeterministicRng G → Option (ℕ × DeterministicRng G)
  reject_below zero upper r = none
  reject_below (suc fuel) upper r =
      let (value, r') = next_u64 r in
      let again = reject_below fuel upper r' in
      if leb (rejection_threshold upper) value then some (value % upper, r') else again

  -- `none` is a loop that has not ended within `fuel` draws.
  unfoldable pub uniform_below : ℕ → ℕ → DeterministicRng G → Option (Result ℕ × DeterministicRng G)
  uniform_below fuel upper r =
      if upper == 0
      then some (err (invalid_argument "uniform_below requires a nonzero upper bound"), r)
      else accept (reject_below fuel upper r)

-- For a nonzero bound of 64 bits the threshold is below the bound, and is the number of 64-bit values that must be dropped for the rest to be a multiple
-- of the bound, so that each result has the
-- same number of accepted draws.
pub rejection_threshold_unbiased :
    (upper : ℕ)
    → 0 < upper
    → upper < u64_mod
    → (rejection_threshold upper < upper) × ((u64_mod - rejection_threshold upper) % upper ≡ 0)
unfolding rejection_threshold
rejection_threshold_unbiased upper p h =
    let rest : u64_mod - (u64_mod - upper) % upper ≡ upper * ((u64_mod - upper) / upper + 1) =
      omega (arith, div-add-mod (u64_mod - upper) upper, mod-le (u64_mod - upper) upper) in
    (grind arith, rw rest (mul-mod_right upper ((u64_mod - upper) / upper + 1)))

module _ {G : Type 0} (draw : G → ℕ × G) where
  -- The draw after `k` others, with the generator that it leaves.
  unfoldable pub nth_draw : ℕ → DeterministicRng G → ℕ × DeterministicRng G
  nth_draw zero r = next_u64 draw r
  nth_draw (suc k) r = nth_draw k (next_u64 draw r).1

  -- The loop returned the first draw that is not below the threshold, reduced by the bound.
  pub record FirstAccepted (fuel upper : ℕ) (r : DeterministicRng G)
      (result : Option (Result ℕ × DeterministicRng G)) : Type 0 where
    pub index : ℕ
    pub within : index < fuel
    pub accepted : rejection_threshold upper ≤ (nth_draw index r).0
    pub rejected : (i : ℕ) → i < index → (nth_draw i r).0 < rejection_threshold upper
    pub returned : result ≡ some (ok ((nth_draw index r).0 % upper), (nth_draw index r).1)

  later :
      (fuel upper : ℕ) (r : DeterministicRng G) {result : Option (Result ℕ × DeterministicRng G)}
      → (next_u64 draw r).0 < rejection_threshold upper
      → FirstAccepted fuel upper (next_u64 draw r).1 result
      → FirstAccepted (suc fuel) upper r result
  unfolding nth_draw
  later fuel upper r low f = record {
    index = suc f.index;
    within = omega arith;
    accepted = f.accepted;
    rejected = below;
    returned = f.returned;
  }
    where
      below : (i : ℕ) → i < suc f.index → (nth_draw i r).0 < rejection_threshold upper
      below zero h = low
      below (suc i) h = f.rejected i (omega arith)

  reject_below-FirstAccepted :
      (k fuel upper : ℕ) (r : DeterministicRng G)
      → k < fuel
      → rejection_threshold upper ≤ (nth_draw k r).0
      → FirstAccepted fuel upper r (accept (reject_below draw fuel upper r))
  unfolding reject_below nth_draw
  reject_below-FirstAccepted k zero upper r b a = absurd (omega arith)
  reject_below-FirstAccepted zero (suc fuel) upper r b a = record {
    index = 0;
    within = omega arith;
    accepted = a;
    rejected = λ i h. absurd (omega arith);
    returned = ground arith;
  }
  reject_below-FirstAccepted (suc k) (suc fuel) upper r b a =
      elim (Bool-cases (leb (rejection_threshold upper) (next_u64 draw r).0)) [
        | inl e ↦ rw e (record {
          index = 0;
          within = omega arith;
          accepted = leb→le _ _ e;
          rejected = λ i h. absurd (omega arith);
          returned = refl;
        })
        | inr e ↦ rw e (
            later fuel upper r (ground arith)
              (reject_below-FirstAccepted k fuel upper (next_u64 draw r).1 (omega arith) a))
      ]

  -- A draw with a nonzero bound ends within `fuel` draws if one of those is accepted. It is the first accepted
  -- one, reduced below the bound.
  pub uniform_below-FirstAccepted :
      (k fuel upper : ℕ) (r : DeterministicRng G)
      → 0 < upper
      → k < fuel
      → rejection_threshold upper ≤ (nth_draw k r).0
      → FirstAccepted fuel upper r (uniform_below draw fuel upper r)
  unfolding uniform_below
  uniform_below-FirstAccepted k fuel upper r p b a =
      let e : (upper == 0) ≡ false = ground arith in
      rw e (reject_below-FirstAccepted k fuel upper r b a)
