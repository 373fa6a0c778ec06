-- ===== src/Transport/Statistics.antt =====
-- transport/statistics.hpp: counts of bytes and chunks.
use nexus_lab.Prelude.{ℕ, ◌+◌, ◌-◌, ◌||◌, ltb, if◌then◌else◌, u64_max}
use nexus_lab.Prelude.Except.{overflow_error, Result, ok, err}

pub record TrafficCount : Type 0 where
  pub bytes : ℕ
  pub chunks : ℕ

abbrev pub no_traffic : TrafficCount
no_traffic = record { bytes = 0; chunks = 0 }

unfoldable pub add_traffic : TrafficCount → TrafficCount → Result TrafficCount
add_traffic left right =
    if ltb (u64_max - left.bytes) right.bytes || ltb (u64_max - left.chunks) right.chunks
    then err (overflow_error "transport counter overflow")
    else ok (record { bytes = left.bytes + right.bytes; chunks = left.chunks + right.chunks })

pub record LinkStatistics : Type 0 where
  pub enqueued : TrafficCount
  pub started : TrafficCount
  pub completed : TrafficCount
  pub marked : TrafficCount
  pub dropped_buffer_full : TrafficCount
  pub dropped_link_down : TrafficCount
  pub busy_time : ℕ

abbrev pub no_statistics : LinkStatistics
no_statistics = record {
  enqueued = no_traffic;
  started = no_traffic;
  completed = no_traffic;
  marked = no_traffic;
  dropped_buffer_full = no_traffic;
  dropped_link_down = no_traffic;
  busy_time = 0;
}
