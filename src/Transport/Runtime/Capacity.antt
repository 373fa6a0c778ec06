-- ===== src/Transport/Runtime/Capacity.antt =====
-- transport/runtime.cpp and progress.cpp: a runtime keeps within its limits when a chunk is registered.
use native.Mathlib.Nat.{le-div_iff_mul-le}
use nexus_lab.Prelude.{
  ℕ, ◌+◌, ◌-◌, ◌/◌, ◌%◌, ◌≤◌, ◌≡◌, refl, inl, inr, Bool, true, false, not, ◌&&◌, ◌||◌, none, List,
  [], ◌∷◌, length, All, arith, ltb, ◌==◌, Bool-cases, u64_max, u64_mod,
}
use nexus_lab.Prelude.Except.{ok, Result-cases}
use nexus_lab.Transport.Statistics.{TrafficCount}
use nexus_lab.Transport.Runtime.{TransportRuntime, ChunkRecord, validate_capacity, validate_route}
use nexus_lab.Transport.Runtime.Submission.{RoutedChunk, registration, enter_chunk, register_chunk}

-- The hops of all routes.
abbrev pub total_hops : List (ℕ × ChunkRecord) → ℕ
total_hops [] = 0
total_hops ((id, entry) ∷ rest) = length entry.route + total_hops rest

abbrev pub ShortRoute : ℕ → ℕ × ChunkRecord → Type 0
ShortRoute limit (id, entry) = length entry.route ≤ limit

-- The chunks are within the limits, which are of 64 bits, and `route_entries` counts their hops.
pub record WithinLimits {G S : Type 0} (t : TransportRuntime G S) : Type 0 where
  pub chunk_limit : t.limits.maximum_chunks ≤ u64_max
  pub entry_limit : t.limits.maximum_route_entries ≤ u64_max
  pub count : length t.chunks ≤ t.limits.maximum_chunks
  pub counted : t.route_entries ≡ total_hops t.chunks
  pub entries : t.route_entries ≤ t.limits.maximum_route_entries
  pub short : All (ShortRoute t.limits.maximum_route_hops) t.chunks

rest_of :
    (limit used : ℕ)
    → used ≤ limit
    → limit ≤ u64_max
    → (limit + u64_mod - used) % u64_mod ≡ limit - used
rest_of limit used fits small = omega arith

fits_hops : (room hops : ℕ) → (not (hops == 0) && ltb (room / hops) 1) ≡ false → hops ≤ room
fits_hops room hops h = elim (Bool-cases (hops == 0)) [
  | inl none_left ↦ ground arith
  | inr some_left ↦
      let quotient : 1 ≤ room / hops = ground arith in
      let product = (le-div_iff_mul-le {k = hops} {x = 1} {y = room} (ground arith)).0 quotient in
      omega (arith, product)
]

capacity_tests : (a b c : Bool) → (a || b || c) ≡ false → (a ≡ false) × (b ≡ false) × (c ≡ false)
capacity_tests false false c h = (refl, refl, h)
capacity_tests true b c h = let impossible : ⊥ = cc in absurd impossible
capacity_tests false true c h = let impossible : ⊥ = cc in absurd impossible

module _ {G S : Type 0} where
  -- What `validate_capacity` lets in.
  validate_capacity-room :
      (hops : ℕ) (t : TransportRuntime G S) (u : Unit {0})
      → WithinLimits t
      → validate_capacity 1 hops t ≡ ok u
      → (hops ≤ t.limits.maximum_route_hops)
        × (length t.chunks + 1 ≤ t.limits.maximum_chunks)
        × (t.route_entries + hops ≤ t.limits.maximum_route_entries)
  unfolding validate_capacity
  validate_capacity-room hops t u w h =
      elim (Bool-cases (
        ltb t.limits.maximum_route_hops hops
        || ltb ((t.limits.maximum_chunks + u64_mod - length t.chunks) % u64_mod) 1
        || (not (hops == 0)
            && ltb ((t.limits.maximum_route_entries + u64_mod - t.route_entries) % u64_mod / hops)
                1))) [
                  | inl full ↦
                      let g = rw (full, validate_capacity) at h in
                      let impossible : ⊥ = cc in absurd impossible
                  | inr room ↦
                      let (few, one_more, entries) =
                        capacity_tests (ltb t.limits.maximum_route_hops hops)
                          (ltb ((t.limits.maximum_chunks + u64_mod - length t.chunks) % u64_mod) 1)
                          (not (hops == 0)
                            && ltb
                                ((t.limits.maximum_route_entries + u64_mod - t.route_entries)
                                  % u64_mod
                                  / hops)
                                1)
                          room in
                      let left =
                        rest_of t.limits.maximum_chunks (length t.chunks) w.count w.chunk_limit in
                      let left' =
                        rest_of t.limits.maximum_route_entries t.route_entries w.entries
                          w.entry_limit in
                      let one_fits = rw left at one_more in
                      let fits =
                        fits_hops (t.limits.maximum_route_entries - t.route_entries) hops
                          (rw left' at entries) in
                      let here = w.count in
                      let there = w.entries in
                      (ground arith, ground arith, omega (arith, fits, there))
                ]

  registration-room :
      (routed : RoutedChunk) (t : TransportRuntime G S) (total : TrafficCount)
      → registration routed t ≡ ok total
      → validate_capacity 1 (length routed.route) t ≡ ok tt
  unfolding registration
  registration-room routed t total h =
      elim (Result-cases (validate_capacity 1 (length routed.route) t)) [
        | inl (u, fits) ↦ fits
        | inr (x, full) ↦ elim (Bool-cases (routed.chunk.bytes == 0)) [
          | inl empty ↦
              let g = rw (empty, registration) at h in let impossible : ⊥ = cc in absurd impossible
          | inr filled ↦ elim (Bool-cases (routed.chunk.hop_index == 0)) [
            | inr late ↦
                let g = rw (filled, late, registration) at h in
                let impossible : ⊥ = cc in absurd impossible
            | inl first ↦ elim (Result-cases (validate_route routed.route none none t)) [
              | inr (y, bad) ↦
                  let g = rw (filled, first, bad, registration) at h in
                  let impossible : ⊥ = cc in absurd impossible
              | inl (v, good) ↦
                  let g = rw (filled, first, good, full, registration) at h in
                  let impossible : ⊥ = cc in absurd impossible
            ]
          ]
        ]
      ]

  -- Registering a chunk keeps a runtime within its limits, whether the chunk is taken or refused: the number of
  -- chunks and the hops of each route are within theirs, and the count of all hops is exact and within its
  -- own, so that it never wraps.
  pub register_chunk-WithinLimits :
      (routed : RoutedChunk) (t : TransportRuntime G S)
      → WithinLimits t
      → WithinLimits (register_chunk routed t).1
  unfolding register_chunk enter_chunk
  register_chunk-WithinLimits routed t w = elim (Result-cases (registration routed t)) [
    | inr (x, refused) ↦ rw (refused, register_chunk) w
    | inl (total, taken) ↦
        let (short, count, entries) =
          validate_capacity-room (length routed.route) t tt w
            (registration-room routed t total taken) in
        let exact = w.counted in
        let limit = w.entry_limit in
        rw (taken, register_chunk)
          (record {
            chunk_limit = w.chunk_limit;
            entry_limit = w.entry_limit;
            count = omega (arith, count);
            counted = omega (arith, exact, entries, limit);
            entries = omega (arith, entries, limit);
            short = (short, w.short);
          })
  ]
