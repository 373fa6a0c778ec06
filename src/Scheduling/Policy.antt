-- ===== src/Scheduling/Policy.antt =====
-- scheduling/policy.cpp: the built-in placement policies.
use Prim.Native.Nat.{bit_xor}
use Prim.Native.String.{String}
use Prim.Native.String
use text.Mathlib.Text.{◌==◌ as str_eq}
use nexus_lab.Prelude.{
  ℕ, zero, suc, ◌+◌, ◌*◌, ◌/◌, ◌%◌, ◌^◌, Bool, true, false, not, ◌&&◌, ◌||◌, Option, none, some,
  List, [], ◌∷◌, ltb, leb, ◌==◌, if◌then◌else◌, length, contains, u64_mod,
}
use nexus_lab.Prelude.Sorting.{sort, select, partition, key_count}
use nexus_lab.Prelude.Except.{invalid_argument, Result, ok, err}
use nexus_lab.Scheduling.Inventory.{Resource, is_free, find_gpu, gpu_before, increment}

pub record JobRequest : Type 0 where
  pub job : ℕ
  pub workers : ℕ
  pub priority : ℕ
  pub pinned : List ℕ

pub data PlacementOutcome : Type 0 where
  placed waiting rejected : PlacementOutcome

pub record Placement : Type 0 where
  pub outcome : PlacementOutcome
  pub workers : List ℕ
  pub reason : String

pub record BuiltinPolicy : Type 0 where
  pub name : String
  pub seed : ℕ

-- `value ^ (value >> shift)`
abbrev pub xor_shift : ℕ → ℕ → ℕ
xor_shift value shift = bit_xor value (value / 2 ^ shift)

unfoldable pub mix : ℕ → ℕ
mix value =
    let once = xor_shift value 30 * 0xbf58476d1ce4e5b9 % u64_mod in
    let twice = xor_shift once 27 * 0x94d049bb133111eb % u64_mod in xor_shift twice 31

abbrev pub rejection : String → Placement
rejection reason = record { outcome = rejected; workers = []; reason = reason }

abbrev pub wait : String → Placement
wait reason = record { outcome = waiting; workers = []; reason = reason }

-- The loop of `pinned`: `none` for an unknown or repeated worker, and whether one is not free.
unfoldable pub pinned_loop : List Resource → List ℕ → List ℕ → Bool → Option Bool
pinned_loop gpus unique [] blocked = some blocked
pinned_loop gpus unique (id ∷ ids) blocked = elim (find_gpu id gpus) [
  | none ↦ none
  | some found ↦
      let rest = pinned_loop gpus (id ∷ unique) ids (blocked || not (is_free found)) in
      if contains unique id then none else rest
]

unfoldable pub pinned : JobRequest → List Resource → Placement
unfolding pinned_loop find_gpu
pinned request gpus = elim (pinned_loop gpus [] request.pinned false) [
  | none ↦ rejection "invalid pinned GPU list"
  | some true ↦ wait "pinned GPUs unavailable"
  | some false ↦ record { outcome = placed; workers = request.pinned; reason = "pinned rank order" }
]

abbrev pub rack_of : Resource → ℕ
rack_of r = r.rack

abbrev pub nic_of : Resource → ℕ
nic_of r = r.nic

-- The order of `compact`: the fullest rack first, and in it the fullest NIC.
unfoldable pub compact_before : List Resource → Resource → Resource → Bool
compact_before free a b =
    if not (a.rack == b.rack)
    then (if key_count rack_of a.rack free == key_count rack_of b.rack free
        then ltb a.rack b.rack
        else ltb (key_count rack_of b.rack free) (key_count rack_of a.rack free))
    else if not (a.nic == b.nic)
    then (if key_count nic_of a.nic free == key_count nic_of b.nic free
        then ltb a.nic b.nic
        else ltb (key_count nic_of b.nic free) (key_count nic_of a.nic free))
    else ltb a.gpu b.gpu

unfoldable pub compact : List Resource → List Resource
unfolding sort
compact free = sort (compact_before free) free

unfoldable pub rack_table : List Resource → List (ℕ × ℕ) → List (ℕ × ℕ)
rack_table [] table = table
rack_table (r ∷ rs) table = rack_table rs (increment r.rack table)

-- The first rack, in the order of the IDs, with enough free workers.
unfoldable pub find_rack : ℕ → List (ℕ × ℕ) → Option ℕ
find_rack count [] = none
find_rack count ((rack, n) ∷ table) = if leb count n then some rack else find_rack count table

unfoldable pub rack_local : List Resource → ℕ → List Resource
unfolding rack_table find_rack partition
rack_local free count = elim (find_rack count (rack_table free [])) [
  | none ↦ free
  | some rack ↦ partition (λ (r : Resource). r.rack == rack) free
]

unfoldable pub score : ℕ → ℕ → ℕ → ℕ
unfolding mix
score seed job id =
    mix (bit_xor (bit_xor seed (mix ((job + 0x9e3779b97f4a7c15) % u64_mod))) (mix id))

unfoldable pub score_before : ℕ → ℕ → Resource → Resource → Bool
unfolding score
score_before seed job a b =
    if score seed job a.gpu == score seed job b.gpu
    then ltb a.gpu b.gpu
    else ltb (score seed job a.gpu) (score seed job b.gpu)

unfoldable pub order : BuiltinPolicy → JobRequest → List Resource → List Resource
unfolding rack_local compact
order p request free =
    let sorted = sort gpu_before free in
    if str_eq p.name "random"
    then sort (score_before p.seed request.job) sorted
    else if str_eq p.name "rack-local"
    then rack_local sorted request.workers
    else if str_eq p.name "compact"
    then compact sorted
    else sorted

-- The IDs of the first `count` resources.
unfoldable pub take_gpus : ℕ → List Resource → List ℕ
take_gpus zero free = []
take_gpus (suc count) [] = []
take_gpus (suc count) (r ∷ rs) = r.gpu ∷ take_gpus count rs

unfoldable pub place_free : BuiltinPolicy → JobRequest → List Resource → Placement
place_free p request free =
    if ltb (length free) request.workers then wait "insufficient free healthy GPUs" else record {
      outcome = placed;
      workers = take_gpus request.workers (order p request free);
      reason = String.◌++◌ p.name " deterministic rank order";
    }

unfoldable pub place : BuiltinPolicy → JobRequest → List Resource → Placement
unfolding pinned place_free
place p request gpus =
    if request.workers == 0
      || ltb (length gpus) request.workers
      || not (length request.pinned == 0) && not (length request.pinned == request.workers)
    then rejection "request exceeds physical capacity or has invalid dimensions"
    else if not (length request.pinned == 0)
    then pinned request gpus
    else place_free p request (select is_free gpus)

unfoldable pub make_policy : String → ℕ → Result BuiltinPolicy
make_policy name seed =
    if not (str_eq name "first-fit")
      && not (str_eq name "random")
      && not (str_eq name "rack-local")
      && not (str_eq name "compact")
    then err (invalid_argument "unknown scheduling policy")
    else ok (record { name = name; seed = seed })
