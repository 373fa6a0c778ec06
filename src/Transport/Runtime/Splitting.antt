-- ===== src/Transport/Runtime/Splitting.antt =====
-- transport/runtime.cpp: the chunks that a submitted transfer is split into.
use native.Mathlib.Nat.{suc-mul, div-add-mod', mod-lt}
use nexus_lab.Prelude.{
  ℕ, zero, suc, ◌+◌, ◌*◌, ◌/◌, ◌%◌, ◌≤◌, ◌<◌, ◌≡◌, ◌⊎◌, refl, ap, ◌∙◌, inl, inr, List, [], ◌∷◌,
  length, All, arith, ◌==◌, Bool-cases,
}
use nexus_lab.Prelude.Except.{Error, Result, ok, err, Result-cases}
use nexus_lab.Prelude.State.{M, and_then, pure}
use nexus_lab.Sim.Env.{Env}
use nexus_lab.Transport.Runtime.{TransportRuntime}
use nexus_lab.Transport.Runtime.Submission.{
  TransferRequest, SubmittedChunk, SubmittedTransfer, count_chunks, ordinal_bytes, routed_chunk,
  submitted_chunk, next_chunk, next_transfer, register_chunk, submit_chunk, submit_chunks,
  submission, schedule_all, submit_transfer,
}

-- The bytes of all chunks.
abbrev pub sum_bytes : List SubmittedChunk → ℕ
sum_bytes [] = 0
sum_bytes (chunk ∷ chunks) = chunk.bytes + sum_bytes chunks

-- The bytes of the `left` chunks from `ordinal` on.
abbrev planned : TransferRequest → ℕ → ℕ → ℕ
planned request ordinal zero = 0
planned request ordinal (suc left) =
    ordinal_bytes request ordinal + planned request (ordinal + 1) left

full_bytes :
    (request : TransferRequest) (ordinal : ℕ)
    → ordinal < request.bytes / request.maximum_chunk_bytes
    → ordinal_bytes request ordinal ≡ request.maximum_chunk_bytes
full_bytes request ordinal h = ground arith

last_bytes :
    (request : TransferRequest) (ordinal : ℕ)
    → ordinal ≡ request.bytes / request.maximum_chunk_bytes
    → ordinal_bytes request ordinal ≡ request.bytes % request.maximum_chunk_bytes
last_bytes request ordinal h = ground arith

-- The full chunks from `ordinal` on.
planned_full :
    (request : TransferRequest) (ordinal left : ℕ)
    → ordinal + left ≡ request.bytes / request.maximum_chunk_bytes
    → planned request ordinal left ≡ left * request.maximum_chunk_bytes
planned_full request ordinal zero h = omega arith
planned_full request ordinal (suc left) h = omega (
  arith,
  full_bytes request ordinal (omega (arith, h)),
  planned_full request (ordinal + 1) left (omega (arith, h)),
  suc-mul left request.maximum_chunk_bytes,
)

-- The full chunks and the last one.
planned_rest :
    (request : TransferRequest) (ordinal left : ℕ)
    → ordinal + left ≡ request.bytes / request.maximum_chunk_bytes
    → planned request ordinal (suc left)
      ≡ left * request.maximum_chunk_bytes + request.bytes % request.maximum_chunk_bytes
planned_rest request ordinal zero h = omega (arith, last_bytes request ordinal (omega (arith, h)))
planned_rest request ordinal (suc left) h = omega (
  arith,
  full_bytes request ordinal (omega (arith, h)),
  planned_rest request (ordinal + 1) left (omega (arith, h)),
  suc-mul left request.maximum_chunk_bytes,
)

-- The chunks are all of the transfer.
planned_all :
    (request : TransferRequest)
    → planned request 0 (count_chunks request.bytes request.maximum_chunk_bytes) ≡ request.bytes
planned_all request = elim (Bool-cases (request.bytes % request.maximum_chunk_bytes == 0)) [
  | inl exact ↦
      let whole = div-add-mod' request.bytes request.maximum_chunk_bytes in
      let none_left : request.bytes % request.maximum_chunk_bytes ≡ 0 = ground arith in
      let count : count_chunks request.bytes request.maximum_chunk_bytes
          ≡ request.bytes / request.maximum_chunk_bytes =
        ground arith in
      rw count (
        omega (
          arith,
          whole,
          none_left,
          planned_full request 0 (request.bytes / request.maximum_chunk_bytes) (omega arith),
        ))
  | inr more ↦
      let whole = div-add-mod' request.bytes request.maximum_chunk_bytes in
      let count : count_chunks request.bytes request.maximum_chunk_bytes
          ≡ suc (request.bytes / request.maximum_chunk_bytes) =
        ground arith in
      rw count (
        omega (
          arith,
          whole,
          planned_rest request 0 (request.bytes / request.maximum_chunk_bytes) (omega arith),
        ))
]

-- A chunk is not empty and no larger than asked for.
abbrev pub Sized : TransferRequest → SubmittedChunk → Type 0
Sized request chunk = (0 < chunk.bytes) × (chunk.bytes ≤ request.maximum_chunk_bytes)

ordinal_bytes-Sized :
    (request : TransferRequest) (id ordinal : ℕ)
    → 0 < request.maximum_chunk_bytes
    → ordinal < count_chunks request.bytes request.maximum_chunk_bytes
    → Sized request (record { id = id; bytes = ordinal_bytes request ordinal })
ordinal_bytes-Sized request id ordinal positive h =
    let small = mod-lt request.bytes positive in (ground (arith, small), ground (arith, small))

-- An answer of a chain comes from answers of its parts.
and_then-ok :
    {S A B : Type 0} (x : Result A × S) (f : A → M S B) (b : B)
    → (and_then x f).0 ≡ ok b
    → (a : A) × (s : S) × (x.0 ≡ ok a) × ((f a s).0 ≡ ok b)
and_then-ok (ok a, s) f b h = (a, s, refl, h)
and_then-ok (err e, s) f b h = let impossible : ⊥ = cc in absurd impossible

module _ {G S : Type 0} where
  submit_chunk-bytes :
      (request : TransferRequest) (transfer ordinal : ℕ) (t : TransportRuntime G S)
      (c : SubmittedChunk)
      → (submit_chunk request transfer ordinal t).0 ≡ ok c
      → c ≡ record { id = c.id; bytes = ordinal_bytes request ordinal }
  unfolding submit_chunk
  submit_chunk-bytes request transfer ordinal t c h =
      let (id, u, drawn, rest) =
        and_then-ok (next_chunk t)
          (λ chunk s.
            and_then (register_chunk (routed_chunk request transfer ordinal chunk) s)
              (λ done. pure (submitted_chunk request ordinal chunk)))
          c h in
      let (done, v, entered, last) =
        and_then-ok (register_chunk (routed_chunk request transfer ordinal id) u)
          (λ done. pure (submitted_chunk request ordinal id)) c rest in
      let made : record { id = id; bytes = ordinal_bytes request ordinal } ≡ c = cc in
      rw (← made) refl

  -- The chunks that the loop answers.
  submit_chunks-planned :
      (request : TransferRequest) (transfer ordinal left : ℕ) (t : TransportRuntime G S)
      (chunks : List SubmittedChunk)
      → 0 < request.maximum_chunk_bytes
      → ordinal + left ≤ count_chunks request.bytes request.maximum_chunk_bytes
      → (submit_chunks request transfer ordinal left t).0 ≡ ok chunks
      → (sum_bytes chunks ≡ planned request ordinal left)
        × (length chunks ≡ left)
        × All (Sized request) chunks
  unfolding submit_chunks
  submit_chunks-planned request transfer ordinal zero t chunks positive within h =
      let made : [] ≡ chunks = cc in rw (← made) (refl, refl, tt)
  submit_chunks-planned request transfer ordinal (suc left) t chunks positive within h =
      let (first, u, begun, rest) = and_then-ok _ _ chunks h in
      let (others, v, ended, last) = and_then-ok _ _ chunks rest in
      let made : first ∷ others ≡ chunks = cc in
      let bytes = submit_chunk-bytes request transfer ordinal t first begun in
      let (sum, count, sized) =
        submit_chunks-planned request transfer (ordinal + 1) left u others positive
          (omega (arith, within)) ended in
      rw (← made) (
        omega (arith, sum, ap (λ (c : SubmittedChunk). c.bytes) bytes),
        omega (arith, count),
        (
          rw bytes (ordinal_bytes-Sized request first.id ordinal positive (omega (arith, within))),
          sized,
        ),
      )

-- What `submit_transfer` answers: an exception, or the chunks that the transfer is split into.
abbrev pub SubmitAnswers : TransferRequest → Result SubmittedTransfer → Type 0
SubmitAnswers request answer =
    ((e : Error) × (answer ≡ err e))
    ⊎ ((submitted : SubmittedTransfer) × (answer ≡ ok submitted)
        × (sum_bytes submitted.chunks ≡ request.bytes)
        × (length submitted.chunks ≡ count_chunks request.bytes request.maximum_chunk_bytes)
        × All (Sized request) submitted.chunks)

module _ {G S : Type 0} (env : Env G S) where
  submission-positive :
      (request : TransferRequest) (t : TransportRuntime G S) (u : Unit {0})
      → submission request t ≡ ok u
      → 0 < request.maximum_chunk_bytes
  unfolding submission
  submission-positive request t u h = elim (Bool-cases (request.maximum_chunk_bytes == 0)) [
    | inr some_left ↦ ground arith
    | inl nothing ↦ elim (Bool-cases (request.bytes == 0)) [
      | inl empty ↦
          let g = rw (empty, submission) at h in let impossible : ⊥ = cc in absurd impossible
      | inr filled ↦
          let g = rw (filled, nothing, submission) at h in
          let impossible : ⊥ = cc in absurd impossible
    ]
  ]

  submit_transfer-answers :
      (request : TransferRequest) (t : TransportRuntime G S) (submitted : SubmittedTransfer)
      → (submit_transfer env request t).0 ≡ ok submitted
      → SubmitAnswers request (ok submitted)
  unfolding submit_transfer
  submit_transfer-answers request t submitted h =
      let (tested, a, valid, first) = and_then-ok (submission request t, t) _ submitted h in
      let (transfer, b, drawn, second) = and_then-ok (next_transfer a) _ submitted first in
      let (chunks, c, split, third) =
        and_then-ok
          (submit_chunks request transfer 0 (count_chunks request.bytes request.maximum_chunk_bytes)
            b)
          _ submitted second in
      let (done, d, scheduled, last) = and_then-ok (schedule_all env chunks c) _ submitted third in
      let (sum, count, sized) =
        submit_chunks-planned request transfer 0
          (count_chunks request.bytes request.maximum_chunk_bytes) b chunks
          (submission-positive request t tested valid) (omega arith) split in
      let made : record { id = transfer; chunks = chunks } ≡ submitted = cc in
      rw (← made) (inr (_, refl, sum ∙ planned_all request, count, sized))

  -- Submitting a transfer throws or else answers the chunks that the transfer is split into: their bytes add up to
  -- those of the transfer, there are as many as full chunks and one more for a rest, and each
  -- has at least one byte and no more than the largest size asked for.
  pub submit_transfer-SubmitAnswers :
      (request : TransferRequest) (t : TransportRuntime G S)
      → SubmitAnswers request (submit_transfer env request t).0
  submit_transfer-SubmitAnswers request t = elim (Result-cases (submit_transfer env request t).0) [
    | inl (submitted, answered) ↦ rw answered (submit_transfer-answers request t submitted answered)
    | inr (e, thrown) ↦ inl (e, thrown)
  ]
