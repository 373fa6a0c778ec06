-- ===== src/Workload/Tests.antt =====
-- The account of a job on two workers, in its first step.
use nexus_lab.Prelude.{true, false, none, some, [], ◌∷◌, arith}
use nexus_lab.Workload.Model.{JobRecord, computing}
use nexus_lab.Workload.Accounting.{Accounts, inspect_cases}

abbrev running : JobRecord
running = record {
  id = 1;
  spec = record {
    name = "train";
    workers = 3 ∷ 4 ∷ [];
    requested_workers = 2;
    compute = 50 ∷ 20 ∷ [];
    arrival = 10;
    steps = 2;
    gradient_bytes = 65536;
    bucket_bytes = 65536;
    chunk_bytes = 4096;
    priority = 0;
    overlap = false;
  };
  state = computing;
  step = 0;
  buckets = 1;
  completed_buckets = 0;
  compute_complete = 1;
  step_started = 30;
  compute_gpu_ns = 0;
  finished = none;
  arrival_event = none;
  active_collective = none;
  ready = 1 ∷ 0 ∷ [];
  events = none ∷ some 8 ∷ [];
  reason = "";
  assigned = true;
  allocated_at = some 30;
}

inspect_cases_example : Accounts running 60
inspect_cases_example = inspect_cases running 60 (omega arith) (omega arith) (omega arith)
