-- ===== src/Workload/Model.antt =====
-- workload/model.hpp, model.cpp and engine.hpp: the records of a job.
use Prim.Native.String.{String}
use nexus_lab.Prelude.{
  ℕ, ◌+◌, ◌-◌, ◌*◌, ◌/◌, Bool, true, false, not, ◌&&◌, Option, List, ltb, ◌==◌, if◌then◌else◌,
  u64_max,
}
use nexus_lab.Prelude.Except.{overflow_error, Result, ok, err}

pub data JobState : Type 0 where
  scheduled computing overlapping communicating succeeded failed cancelled waiting : JobState

-- The kind and the algorithm of the collective have one value each.
pub record JobSpec : Type 0 where
  pub name : String
  pub workers : List ℕ
  pub requested_workers : ℕ
  pub compute : List ℕ
  pub arrival : ℕ
  pub steps : ℕ
  pub gradient_bytes : ℕ
  pub bucket_bytes : ℕ
  pub chunk_bytes : ℕ
  pub priority : ℕ
  pub overlap : Bool

pub record JobSnapshot : Type 0 where
  pub id : ℕ
  pub state : JobState
  pub completed_steps : ℕ
  pub arrival : ℕ
  pub finished : Option ℕ
  pub compute_gpu_ns : ℕ
  pub idle_gpu_ns : ℕ
  pub elapsed_ns : ℕ
  pub reason : String
  pub allocated_at : Option ℕ
  pub waiting_ns : ℕ

-- `WorkloadEngine::Record`
pub record JobRecord : Type 0 where
  pub id : ℕ
  pub spec : JobSpec
  pub state : JobState
  pub step : ℕ
  pub buckets : ℕ
  pub completed_buckets : ℕ
  pub compute_complete : ℕ
  pub step_started : ℕ
  pub compute_gpu_ns : ℕ
  pub finished : Option ℕ
  pub arrival_event : Option ℕ
  pub active_collective : Option ℕ
  pub ready : List ℕ
  pub events : List (Option ℕ)
  pub reason : String
  pub assigned : Bool
  pub allocated_at : Option ℕ

unfoldable pub checked_sum : ℕ → ℕ → Result ℕ
checked_sum left right =
    if ltb (u64_max - left) right
    then err (overflow_error "workload quantity overflow")
    else ok (left + right)

unfoldable pub checked_product : ℕ → ℕ → Result ℕ
checked_product left right =
    if not (right == 0) && ltb (u64_max / right) left
    then err (overflow_error "workload quantity overflow")
    else ok (left * right)

abbrev pub terminal : JobState → Bool
terminal succeeded = true
terminal failed = true
terminal cancelled = true
terminal _ = false
