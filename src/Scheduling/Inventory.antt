-- ===== src/Scheduling/Inventory.antt =====
-- scheduling/policy.hpp and inventory.cpp: which workers are healthy and free, and who owns them.
use nexus_lab.Prelude.{
  ℕ, zero, suc, ◌+◌, ◌-◌, ◌%◌, Bool, true, false, not, ◌&&◌, ◌||◌, Option, none, some, List, [],
  ◌∷◌, map, max, ltb, ◌==◌, if◌then◌else◌, has_value, length, contains, get_elem?,
}
use nexus_lab.Prelude.Sorting.{sort}
use nexus_lab.Prelude.Except.{invalid_argument, length_error, other, Result, ok, err}
use nexus_lab.Topology.Resources.{GpuWorker}

pub record Resource : Type 0 where
  pub gpu : ℕ
  pub rack : ℕ
  pub nic : ℕ
  pub healthy : Bool
  pub owner : Option ℕ

pub record ResourceInventory : Type 0 where
  pub gpus : List Resource

pub record Locality : Type 0 where
  pub racks : ℕ
  pub nics : ℕ
  pub cross_rack_ring_edges : ℕ

abbrev pub fresh_resource : GpuWorker → Resource
fresh_resource w = record {
  gpu = w.id;
  rack = w.rack;
  nic = w.attached_nic;
  healthy = true;
  owner = none;
}

abbrev pub gpu_before : Resource → Resource → Bool
gpu_before a b = ltb a.gpu b.gpu

-- The constructor, of the workers of a graph.
unfoldable pub new_inventory : List GpuWorker → Result ResourceInventory
new_inventory workers =
    if length workers == 0 || ltb 8192 (length workers)
    then err (length_error "scheduler inventory requires 1..8192 GPUs")
    else ok (record { gpus = sort gpu_before (map fresh_resource workers) })

-- `r.owner == job`
abbrev pub owned_by : ℕ → Option ℕ → Bool
owned_by job none = false
owned_by job (some o) = o == job

abbrev pub any_owned : ℕ → List Resource → Bool
any_owned job [] = false
any_owned job (r ∷ rs) = owned_by job r.owner || any_owned job rs

-- `std::lower_bound`: the index of the first resource that is not below `gpu`.
unfoldable pub lower_bound : ℕ → List Resource → ℕ
lower_bound gpu [] = 0
lower_bound gpu (r ∷ rs) = if ltb r.gpu gpu then suc (lower_bound gpu rs) else 0

-- `healthy && !owner.has_value()`
abbrev pub is_free : Resource → Bool
is_free r = r.healthy && not (has_value r.owner)

-- Whether the worker at the bound may be taken.
abbrev pub is_available : ℕ → List ℕ → Option Resource → Bool
is_available id unique none = false
is_available id unique (some found) = found.gpu == id && is_free found && not (contains unique id)

-- The loop of `allocate`: the index of each worker.
unfoldable pub find_workers : List Resource → List ℕ → List ℕ → Result (List ℕ)
find_workers gpus unique [] = ok []
find_workers gpus unique (id ∷ ids) =
    let rest = find_workers gpus (id ∷ unique) ids in
    let index = lower_bound id gpus in
    if is_available id unique (get_elem? gpus index)
    then elim rest [ ok indices ↦ ok (index ∷ indices) | err e ↦ err e ]
    else err (invalid_argument "placement contains unavailable or duplicate GPU")

-- `gpus_[index].owner = job`
unfoldable pub set_owner : Option ℕ → List Resource → ℕ → List Resource
set_owner owner [] index = []
set_owner owner (r ∷ rs) zero = record r { owner = owner } ∷ rs
set_owner owner (r ∷ rs) (suc index) = r ∷ set_owner owner rs index

unfoldable pub set_owners : Option ℕ → List Resource → List ℕ → List Resource
unfolding set_owner
set_owners owner gpus [] = gpus
set_owners owner gpus (index ∷ indices) = set_owners owner (set_owner owner gpus index) indices

unfoldable pub allocate : ℕ → List ℕ → ResourceInventory → Result (Unit {0}) × ResourceInventory
unfolding find_workers set_owners lower_bound
allocate job workers v =
    if length workers == 0 || ltb (length v.gpus) (length workers) || any_owned job v.gpus
    then (err (invalid_argument "invalid or duplicate allocation"), v)
    else elim (find_workers v.gpus [] workers) [
      | err e ↦ (err e, v)
      | ok indices ↦ (ok tt, record { gpus = set_owners (some job) v.gpus indices })
    ]

unfoldable pub release_all : ℕ → List Resource → List Resource
release_all job [] = []
release_all job (r ∷ rs) =
    (if owned_by job r.owner then record r { owner = none } else r) ∷ release_all job rs

unfoldable pub release : ℕ → ResourceInventory → ResourceInventory
unfolding release_all
release job v = record { gpus = release_all job v.gpus }

unfoldable pub set_healthy : Bool → List Resource → ℕ → List Resource
set_healthy healthy [] index = []
set_healthy healthy (r ∷ rs) zero = record r { healthy = healthy } ∷ rs
set_healthy healthy (r ∷ rs) (suc index) = r ∷ set_healthy healthy rs index

-- The end of `set_health`, for what stands at the bound.
unfoldable pub set_health_at :
    ℕ → Bool → ℕ → Option Resource → ResourceInventory → Result (Option ℕ) × ResourceInventory
unfolding set_healthy
set_health_at gpu healthy index none v = (err (invalid_argument "unknown scheduler GPU"), v)
set_health_at gpu healthy index (some found) v =
    if found.gpu == gpu
    then (ok found.owner, record { gpus = set_healthy healthy v.gpus index })
    else (err (invalid_argument "unknown scheduler GPU"), v)

unfoldable pub set_health : ℕ → Bool → ResourceInventory → Result (Option ℕ) × ResourceInventory
unfolding lower_bound set_health_at
set_health gpu healthy v =
    let index = lower_bound gpu v.gpus in set_health_at gpu healthy index (get_elem? v.gpus index) v

-- `++free[gpu.rack]` in a `std::map`, which keeps its keys in order.
abbrev pub increment : ℕ → List (ℕ × ℕ) → List (ℕ × ℕ)
increment key [] = (key, 1) ∷ []
increment key ((k, n) ∷ table) =
    if k == key
    then (k, n + 1) ∷ table
    else if ltb key k
    then (key, 1) ∷ (k, n) ∷ table
    else (k, n) ∷ increment key table

abbrev pub table_at : ℕ → List (ℕ × ℕ) → ℕ
table_at key [] = 0
table_at key ((k, n) ∷ table) = if k == key then n else table_at key table

-- The loop of `fragmentation`.
unfoldable pub count_free : List Resource → List (ℕ × ℕ) → ℕ → ℕ → ℕ × ℕ
count_free [] free total largest = (total, largest)
count_free (r ∷ rs) free total largest =
    let free' = if is_free r then increment r.rack free else free in
    count_free rs free' (if is_free r then total + 1 else total)
      (if is_free r then max largest (table_at r.rack free') else largest)

unfoldable pub fragmentation : List Resource → ℕ
unfolding count_free
fragmentation gpus = let (total, largest) = count_free gpus [] 0 0 in total - largest

-- The first resource of a worker: `lookup.at(gpu)` of a map that `emplace` has filled.
unfoldable pub find_gpu : ℕ → List Resource → Option Resource
find_gpu gpu [] = none
find_gpu gpu (r ∷ rs) = if r.gpu == gpu then some r else find_gpu gpu rs

-- `insert` in a `std::set`.
abbrev pub add_member : ℕ → List ℕ → List ℕ
add_member a set = if contains set a then set else a ∷ set

-- One step of `locality`, for the worker and the next one in the ring.
abbrev pub count_edge :
    Option Resource → Option Resource → Option (List ℕ × List ℕ × ℕ) → Option (List ℕ × List ℕ × ℕ)
count_edge (some r) (some n) (some (racks, nics, edges)) =
    some (
      add_member r.rack racks,
      add_member r.nic nics,
      if r.rack == n.rack then edges else edges + 1,
    )
count_edge _ _ _ = none

-- The loop of `locality`, from `index` on; `none` is the exception of `at` for an unknown worker.
unfoldable pub locality_loop :
    List Resource → List ℕ → ℕ → ℕ → Option (List ℕ × List ℕ × ℕ) → Option (List ℕ × List ℕ × ℕ)
locality_loop gpus workers zero index state = state
locality_loop gpus workers (suc left) index state =
    let here : Option Resource = elim (get_elem? workers index) [
      | none ↦ none
      | some w ↦ find_gpu w gpus
    ] in
    let next : Option Resource = elim (get_elem? workers ((index + 1) % length workers)) [
      | none ↦ none
      | some w ↦ find_gpu w gpus
    ] in
    locality_loop gpus workers left (index + 1) (count_edge here next state)

unfoldable pub locality : List Resource → List ℕ → Result Locality
unfolding locality_loop find_gpu
locality gpus workers = elim (locality_loop gpus workers (length workers) 0 (some ([], [], 0))) [
  | none ↦ err other
  | some (racks, nics, edges) ↦
      ok (record { racks = length racks; nics = length nics; cross_rack_ring_edges = edges })
]
