-- ===== src/Collective/Tests.antt =====
-- The ring planner on concrete inputs.
use nexus_lab.Prelude.{◌+◌, ◌%◌, ◌≡◌, arith}
use nexus_lab.Telemetry.Records.{all_gather}
use nexus_lab.Collective.Planner.{shard_of, shard_of_next}

shard_of_next_example : shard_of 4 all_gather (1 + 1) ((3 + 1) % 4) ≡ shard_of 4 all_gather 1 3
shard_of_next_example = shard_of_next 4 all_gather 1 3 (omega arith) (omega arith)
