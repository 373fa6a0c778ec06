-- ===== src/Transport/Timing.antt =====
-- transport/timing.cpp: how long a link takes to serialise bytes. `multiply_fraction` multiplies a
-- fraction by a 64-bit number bit by bit, without a product that exceeds 64 bits.
use nexus_lab.Prelude.{
  ℕ, zero, suc, ◌+◌, ◌-◌, ◌*◌, ◌/◌, ◌%◌, ◌^◌, ◌≤◌, ◌<◌, ◌≡◌, refl, sym, ◌⊎◌, inl, inr, false,
  Option, none, some, arith, leb, ltb, ◌==◌, ◌||◌, if◌then◌else◌, u64_max, u64_mod, Bool-cases,
  ltb→lt, leb→le, leb→gt, ==_iff, ◌≢◌,
}
use native.Mathlib.Nat.{div-add-mod, mod-lt, pow-suc, div-div-eq-div-mul, div-le_self}

abbrev pub bit_nanoseconds_per_byte : ℕ
bit_nanoseconds_per_byte = 8000000000

pub record DivisionResult : Type 0 where
  pub quotient : ℕ
  pub remainder : ℕ

pub record FractionProduct : Type 0 where
  pub numerator : ℕ
  pub multiplier : ℕ
  pub denominator : ℕ

-- The doubling at the head of the loop's body; 64-bit sums and products wrap.
double : ℕ → DivisionResult → DivisionResult
double denominator d =
    if leb (denominator - d.remainder) d.remainder
    then record {
      quotient = (d.quotient * 2 % u64_mod + 1) % u64_mod;
      remainder = d.remainder - (denominator - d.remainder);
    }
    else record { quotient = d.quotient * 2 % u64_mod; remainder = d.remainder * 2 % u64_mod }

-- The addition behind it, for a bit that is set.
add_numerator : FractionProduct → DivisionResult → DivisionResult
add_numerator p d =
    if leb (p.denominator - p.numerator) d.remainder
    then record {
      quotient = (d.quotient + 1) % u64_mod;
      remainder = d.remainder - (p.denominator - p.numerator);
    }
    else record d { remainder = (d.remainder + p.numerator) % u64_mod }

-- One round, for bit number `bit`.
round : FractionProduct → ℕ → DivisionResult → DivisionResult
unfolding double add_numerator
round p bit d =
    if p.multiplier / 2 ^ bit % 2 == 0
    then double p.denominator d
    else add_numerator p (double p.denominator d)

-- The rounds for the bits below `bits`, the highest first.
rounds : FractionProduct → ℕ → DivisionResult → DivisionResult
rounds p zero d = d
rounds p (suc bit) d = rounds p bit (round p bit d)

unfoldable pub multiply_fraction : FractionProduct → DivisionResult
unfolding round rounds
multiply_fraction p = rounds p 64 (record { quotient = 0; remainder = 0 })

-- The end of `serialization_delay`: the fraction is added to the whole seconds, and rounded up.
add_fraction : ℕ → DivisionResult → Option ℕ
add_fraction nanoseconds fractional =
    if ltb (u64_max - nanoseconds) fractional.quotient
    then none
    else if fractional.remainder == 0
    then some (nanoseconds + fractional.quotient)
    else if nanoseconds + fractional.quotient == u64_max
    then none
    else some (nanoseconds + fractional.quotient + 1)

unfoldable pub serialization_delay : ℕ → ℕ → Option ℕ
unfolding add_fraction
serialization_delay byte_count bits_per_second =
    if byte_count == 0 || bits_per_second == 0
    then none
    else if ltb (u64_max / bit_nanoseconds_per_byte) (byte_count / bits_per_second)
    then none
    else add_fraction (byte_count / bits_per_second * bit_nanoseconds_per_byte) (
        multiply_fraction (record {
          numerator = byte_count % bits_per_second;
          multiplier = bit_nanoseconds_per_byte;
          denominator = bits_per_second;
        }))

-- `d` is the quotient and the remainder of the numerator times `k`.
record Divides (p : FractionProduct) (k : ℕ) (d : DivisionResult) : Type 0 where
  exact : d.quotient * p.denominator + d.remainder ≡ p.numerator * k
  below : d.remainder < p.denominator

-- The product is a fraction, over a denominator of 64 bits.
record IsFraction (p : FractionProduct) : Type 0 where
  proper : p.numerator < p.denominator
  word : p.denominator ≤ u64_max

quotient-le :
    (p : FractionProduct) (k : ℕ) (d : DivisionResult)
    → IsFraction p
    → Divides p k d
    → d.quotient ≤ k
quotient-le p k d f h = bound p.numerator p.denominator d.quotient d.remainder f.proper h.exact
  where
    bound : (n m q r : ℕ) → n < m → q * m + r ≡ n * k → q ≤ k
    bound n m q r l e = grind arith

double-Divides :
    (p : FractionProduct) (k : ℕ) (d : DivisionResult)
    → IsFraction p
    → 2 * k ≤ u64_max
    → Divides p k d
    → Divides p (2 * k) (double p.denominator d)
unfolding double
double-Divides p k d f w h =
    let q = quotient-le p k d f h in
    let size = f.word in
    let exact = h.exact in
    elim (Bool-cases (leb (p.denominator - d.remainder) d.remainder)) [
      | inl t ↦
          let l = leb→le _ _ t in
          let no_wrap : (d.quotient * 2 % u64_mod + 1) % u64_mod ≡ d.quotient * 2 + 1 =
            omega arith in
          rw (t, no_wrap) (record { exact = omega arith; below = omega arith })
      | inr t ↦
          let l = leb→gt _ _ t in
          let no_wrap : d.quotient * 2 % u64_mod ≡ d.quotient * 2 = omega arith in
          let small : d.remainder * 2 % u64_mod ≡ d.remainder * 2 = omega arith in
          rw (t, no_wrap, small) (record { exact = omega arith; below = omega arith })
    ]

add_numerator-Divides :
    (p : FractionProduct) (k : ℕ) (d : DivisionResult)
    → IsFraction p
    → k + 1 ≤ u64_max
    → Divides p k d
    → Divides p (k + 1) (add_numerator p d)
unfolding add_numerator
add_numerator-Divides p k d f w h =
    let q = quotient-le p k d f h in
    let size = f.word in
    let proper = f.proper in
    let exact = h.exact in
    elim (Bool-cases (leb (p.denominator - p.numerator) d.remainder)) [
      | inl t ↦
          let l = leb→le _ _ t in
          let no_wrap : (d.quotient + 1) % u64_mod ≡ d.quotient + 1 = omega arith in
          rw (t, no_wrap) (record { exact = omega arith; below = omega arith })
      | inr t ↦
          let l = leb→gt _ _ t in
          let small : (d.remainder + p.numerator) % u64_mod ≡ d.remainder + p.numerator =
            omega arith in
          rw (t, small) (record { exact = omega arith; below = omega arith })
    ]

-- The multiplier without its `bit` lowest bits gains one bit when `bit` falls by one.
prefix_step : (m bit : ℕ) → m / 2 ^ bit ≡ 2 * (m / 2 ^ suc bit) + m / 2 ^ bit % 2
prefix_step m bit =
    let e : m / 2 ^ suc bit ≡ m / 2 ^ bit / 2 =
      rw pow-suc (sym (div-div-eq-div-mul m (2 ^ bit) 2)) in
    rw e (omega arith)

round-Divides :
    (p : FractionProduct) (bit : ℕ) (d : DivisionResult)
    → IsFraction p
    → p.multiplier ≤ u64_max
    → Divides p (p.multiplier / 2 ^ suc bit) d
    → Divides p (p.multiplier / 2 ^ bit) (round p bit d)
unfolding round
round-Divides p bit d f w h =
    let step = prefix_step p.multiplier bit in
    let small = div-le_self p.multiplier (2 ^ bit) in
    let doubled = double-Divides p (p.multiplier / 2 ^ suc bit) d f (omega arith) h in
    elim (Bool-cases (p.multiplier / 2 ^ bit % 2 == 0)) [
      | inl t ↦
          let even : 2 * (p.multiplier / 2 ^ suc bit) ≡ p.multiplier / 2 ^ bit =
            let z = (==_iff _ 0).0 t in omega arith in
          rw t (rw even at doubled)
      | inr t ↦
          let odd : 2 * (p.multiplier / 2 ^ suc bit) + 1 ≡ p.multiplier / 2 ^ bit =
            let z : p.multiplier / 2 ^ bit % 2 ≢ 0 = ground arith in omega arith in
          rw t (rw odd at (add_numerator-Divides p _ _ f (omega arith) doubled))
    ]

rounds-Divides :
    (p : FractionProduct) (bits : ℕ) (d : DivisionResult)
    → IsFraction p
    → p.multiplier ≤ u64_max
    → Divides p (p.multiplier / 2 ^ bits) d
    → Divides p p.multiplier (rounds p bits d)
unfolding rounds
rounds-Divides p zero d f w h =
    let e : p.multiplier / 2 ^ zero ≡ p.multiplier = omega arith in rw e at h
rounds-Divides p (suc bit) d f w h =
    rounds-Divides p bit (round p bit d) f w (round-Divides p bit d f w h)

-- The 64 rounds compute the exact quotient and remainder of the product, of 128 bits, by the
-- denominator.
pub multiply_fraction-exact :
    (p : FractionProduct)
    → p.numerator < p.denominator
    → p.denominator ≤ u64_max
    → p.multiplier ≤ u64_max
    → ((multiply_fraction p).quotient * p.denominator + (multiply_fraction p).remainder
        ≡ p.numerator * p.multiplier)
      × ((multiply_fraction p).remainder < p.denominator)
unfolding multiply_fraction
multiply_fraction-exact p l d w =
    let start : Divides p (p.multiplier / 2 ^ 64) (record { quotient = 0; remainder = 0 }) =
      let z : p.multiplier / 2 ^ 64 ≡ 0 = omega arith in
      rw z (record { exact = omega arith; below = omega arith }) in
    let r =
      rounds-Divides p 64 (record { quotient = 0; remainder = 0 }) (record { proper = l; word = d })
        w start in
    (r.exact, r.below)

-- `delay` is the least time of 64 bits in which a rate of `rate` covers `amount`, if there is one.
abbrev pub IsCeiling : ℕ → ℕ → Option ℕ → Type 0
IsCeiling rate amount delay =
    ((t : ℕ) × (delay ≡ some t) × (t ≤ u64_max) × (amount ≤ t * rate) × (t * rate < amount + rate))
    ⊎ ((delay ≡ none) × (u64_max * rate < amount))

above : (a t w r : ℕ) → a < t → a * w + w + r ≤ t * w + r
above a t w r h = grind arith

add_fraction-IsCeiling :
    (nanoseconds rate amount : ℕ) (d : DivisionResult)
    → nanoseconds ≤ u64_max
    → (nanoseconds + d.quotient) * rate + d.remainder ≡ amount
    → d.remainder < rate
    → IsCeiling rate amount (add_fraction nanoseconds d)
unfolding add_fraction
add_fraction-IsCeiling nanoseconds rate amount d n e r =
    elim (Bool-cases (ltb (u64_max - nanoseconds) d.quotient)) [
      | inl t ↦
          let l = ltb→lt _ _ t in
          let m = above u64_max (nanoseconds + d.quotient) rate 0 (omega arith) in
          rw t (inr (refl, omega arith))
      | inr t ↦
          let fits : nanoseconds + d.quotient ≤ u64_max = ground arith in
          elim (Bool-cases (d.remainder == 0)) [
            | inl z ↦
                let zero_left = (==_iff _ _).0 z in
                rw (t, z) (inl (nanoseconds + d.quotient, refl, fits, omega arith, omega arith))
            | inr z ↦ elim (Bool-cases (nanoseconds + d.quotient == u64_max)) [
              | inl full ↦
                  let all = (==_iff _ _).0 full in
                  let some_left : d.remainder ≢ 0 = ground arith in
                  rw (t, z, full) (inr (refl, rw all at (excess _ _ _ _ e some_left)))
              | inr room ↦
                  let left : nanoseconds + d.quotient ≢ u64_max = ground arith in
                  let some_left : d.remainder ≢ 0 = ground arith in
                  rw (t, z, room)
                    (inl
                      (nanoseconds + d.quotient + 1, refl, omega arith, omega arith, omega arith))
            ]
          ]
    ]
  where
    excess : (t w r a : ℕ) → t * w + r ≡ a → r ≢ 0 → t * w < a
    excess t w r a e s = omega arith

-- The delay of a nonzero byte count at a nonzero bandwidth is the least number of nanoseconds in
-- which the link carries the bytes' bits, and there is none exactly if that exceeds 64 bits.
pub serialization_delay-IsCeiling :
    (byte_count bits_per_second : ℕ)
    → 0 < byte_count
    → byte_count ≤ u64_max
    → 0 < bits_per_second
    → bits_per_second ≤ u64_max
    → IsCeiling bits_per_second
        (byte_count * bit_nanoseconds_per_byte)
        (serialization_delay byte_count bits_per_second)
unfolding serialization_delay
serialization_delay-IsCeiling b w bp bm wp wm =
    let whole = div-add-mod b w in
    let nonzero : (b == 0 || w == 0) ≡ false = ground arith in
    let proper = mod-lt b wp in
    let (exact, below) =
      multiply_fraction-exact
        (record { numerator = b % w; multiplier = bit_nanoseconds_per_byte; denominator = w })
        proper wm (omega arith) in
    elim (Bool-cases (ltb (u64_max / bit_nanoseconds_per_byte) (b / w))) [
      | inl t ↦
          let l = ltb→lt _ _ t in
          let m = above u64_max (b / w * bit_nanoseconds_per_byte) w 0 (omega arith) in
          rw (nonzero, t) (inr (refl, omega arith))
      | inr t ↦
          let fits : b / w * bit_nanoseconds_per_byte ≤ u64_max = ground arith in
          rw (nonzero, t) (add_fraction-IsCeiling _ w _ _ fits (omega arith) below)
    ]
