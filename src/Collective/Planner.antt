-- ===== src/Collective/Planner.antt =====
-- collective/model.hpp and planner.cpp: the rounds of a ring all-reduce.
use nexus_lab.Prelude.{
  ℕ, zero, suc, ◌+◌, ◌-◌, ◌*◌, ◌/◌, ◌%◌, ◌<◌, ◌≡◌, ap, ◌∙◌, Bool, true, false, List, [], ◌∷◌, arith,
  ltb, leb, ◌==◌, ◌||◌, if◌then◌else◌, u64_max, not, ◌&&◌,
}
use native.Mathlib.Nat.{mod-add-mod}
use nexus_lab.Prelude.Except.{invalid_argument, overflow_error, Text, Result, ok, err}
use nexus_lab.Telemetry.Records.{Phase, reduce_scatter, all_gather}

pub record CollectiveRequest : Type 0 where
  pub participants : List ℕ
  pub bytes : ℕ
  pub chunk_bytes : ℕ

pub record RingTransfer : Type 0 where
  pub source : ℕ
  pub destination : ℕ
  pub shard : ℕ
  pub bytes : ℕ

pub record CollectiveResult : Type 0 where
  pub id : ℕ
  pub outcome : Phase
  pub started : ℕ
  pub finished : ℕ
  pub planned_bytes : ℕ
  pub issued_fabric_bytes : ℕ
  pub issued_local_bytes : ℕ
  pub delivered_bytes : ℕ
  pub reason : Text

pub record CollectiveTimeline : Type 0 where
  pub id : ℕ
  pub timestamp : ℕ
  pub phase : Phase
  pub round : ℕ

unfoldable pub planned_volume : ℕ → ℕ → Result ℕ
planned_volume participants bytes =
    if participants == 0 || ltb 8192 participants || bytes == 0
    then err (invalid_argument "invalid ring dimensions")
    else if ltb 0 (2 * (participants - 1)) && ltb (u64_max / (2 * (participants - 1))) bytes
    then err (overflow_error "ring volume overflow")
    else ok (2 * (participants - 1) * bytes)

-- `phase == Phase::AllGather` as a number.
abbrev pub gathers : Phase → ℕ
gathers all_gather = 1
gathers _ = 0

abbrev pub is_ring_phase : Phase → Bool
is_ring_phase reduce_scatter = true
is_ring_phase all_gather = true
is_ring_phase _ = false

-- The shard that a rank sends. The sum is below 2 ^ 32, since a ring has 8192 participants at most
-- and the round is below that.
unfoldable pub shard_of : ℕ → Phase → ℕ → ℕ → ℕ
shard_of participants phase round rank =
    (rank + participants - round + gathers phase) % participants

unfoldable pub shard_bytes : ℕ → ℕ → ℕ → ℕ
shard_bytes participants bytes shard =
    bytes / participants + (if ltb shard (bytes % participants) then 1 else 0)

-- The transfer that a rank starts.
unfoldable pub ring_transfer : ℕ → ℕ → Phase → ℕ → ℕ → RingTransfer
ring_transfer participants bytes phase round rank =
    let shard = shard_of participants phase round rank in
    record {
      source = rank;
      destination = (rank + 1) % participants;
      shard = shard;
      bytes = shard_bytes participants bytes shard;
    }

-- The loop over the ranks, from `rank` on.
unfoldable pub plan_ranks : ℕ → ℕ → (ℕ → RingTransfer) → List RingTransfer
plan_ranks zero rank transfer = []
plan_ranks (suc left) rank transfer = transfer rank ∷ plan_ranks left (rank + 1) transfer

unfoldable pub plan_valid : ℕ → ℕ → Phase → ℕ → Result (List RingTransfer)
plan_valid participants bytes phase round =
    if not (is_ring_phase phase) || ltb participants 2 || leb (participants - 1) round
    then err (invalid_argument "invalid ring phase or round")
    else ok (plan_ranks participants 0 (ring_transfer participants bytes phase round))

unfoldable pub plan_round : ℕ → ℕ → Phase → ℕ → Result (List RingTransfer)
plan_round participants bytes phase round = elim (planned_volume participants bytes) [
  | ok volume ↦ plan_valid participants bytes phase round
  | err e ↦ err e
]

-- In a ring of which the next round is below the number of participants, the receiver of a transfer
-- sends the same shard in that round.
pub shard_of_next :
    (participants : ℕ) (phase : Phase) (round rank : ℕ)
    → rank < participants
    → round + 1 < participants
    → shard_of participants phase (round + 1) ((rank + 1) % participants)
      ≡ shard_of participants phase round rank
unfolding shard_of
shard_of_next participants phase round rank r h =
    let rest = participants - (round + 1) + gathers phase in
    let split : (rank + 1) % participants + participants - (round + 1) + gathers phase
        ≡ (rank + 1) % participants + rest =
      omega arith in
    let joined : rank + 1 + rest ≡ rank + participants - round + gathers phase = omega arith in
    ap (λ m. m % participants) split
    ∙ mod-add-mod (rank + 1) participants rest
    ∙ ap (λ m. m % participants) joined
