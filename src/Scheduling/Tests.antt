-- ===== src/Scheduling/Tests.antt =====
-- The inventory and the placement policies of scheduling/ on a concrete cluster.
use nexus_lab.Prelude.{ℕ, ◌≡◌, ◌≤◌, refl, List, [], ◌∷◌, map, arith, ◌+◌}
use nexus_lab.Prelude.Except.{ok}
use nexus_lab.Prelude.Sorting.{select, key_count}
use nexus_lab.Topology.Resources.{GpuWorker}
use nexus_lab.Scheduling.Inventory.{ResourceInventory, fresh_resource, allocate, release}
use nexus_lab.Scheduling.Policy.{BuiltinPolicy, JobRequest, placed, place}
use nexus_lab.Scheduling.Sorted.{Ascending}
use nexus_lab.Scheduling.Placing.{PlaceAnswers, place_cases}
use nexus_lab.Scheduling.Allocating.{release-allocate}
use nexus_lab.Scheduling.Keeping.{place-allocate, Built, new_inventory_cases}

-- Worker `id` stands in rack `rack`, on a network interface of its own.
abbrev worker : ℕ → ℕ → GpuWorker
worker id rack = record { id = id; rack = rack; attached_nic = id + 10; port = id + 20 }

abbrev workers : List GpuWorker
workers = worker 1 1 ∷ worker 2 1 ∷ worker 3 2 ∷ []

abbrev free_cluster : ResourceInventory
free_cluster = record { gpus = map fresh_resource workers }

abbrev first_fit : BuiltinPolicy
first_fit = record { name = "first-fit"; seed = 5 }

abbrev pair : JobRequest
pair = record { job = 4; workers = 2; priority = 0; pinned = [] }

free_cluster-Ascending : Ascending free_cluster.gpus
free_cluster-Ascending = ground arith

place_cases_example : PlaceAnswers first_fit pair free_cluster.gpus
place_cases_example = place_cases first_fit pair free_cluster.gpus free_cluster-Ascending

pair-placed : (place first_fit pair free_cluster.gpus).outcome ≡ placed
unfolding place select
pair-placed = refl

place-allocate_example :
    (allocate 4 (place first_fit pair free_cluster.gpus).workers free_cluster).0 ≡ ok tt
place-allocate_example =
    place-allocate first_fit pair free_cluster free_cluster-Ascending refl pair-placed

release-allocate_example : release 4 (allocate 4 (3 ∷ 1 ∷ []) free_cluster).1 ≡ free_cluster
release-allocate_example = release-allocate 4 (3 ∷ 1 ∷ []) free_cluster refl

workers-different : (a : ℕ) → key_count (λ (w : GpuWorker). w.id) a workers ≤ 1
workers-different a = ground arith

new_inventory_cases_example : Built workers
new_inventory_cases_example = new_inventory_cases workers workers-different
