-- ===== src/Telemetry/Configuration.antt =====
-- telemetry/metrics.hpp and metrics.cpp: the configuration of a session.
use Prim.Native.String.{String}
use text.Mathlib.Text.{◌==◌ as str_eq}
use nexus_lab.Prelude.{ℕ, ◌≡◌, refl, if◌then◌else◌}
use nexus_lab.Prelude.Except.{invalid_argument, Result, ok, err}

pub data TelemetryMode : Type 0 where
  off summary sampled full : TelemetryMode

pub record TelemetryLimits : Type 0 where
  pub metric_series : ℕ
  pub decision_records : ℕ
  pub domain_records : ℕ
  pub samples : ℕ
  pub histogram_boundaries : ℕ
  pub correlation_edges : ℕ
  pub serialized_bytes : ℕ

pub record TelemetryConfiguration : Type 0 where
  pub mode : TelemetryMode
  pub sample_interval_ns : ℕ
  pub limits : TelemetryLimits

pub data MetricKind : Type 0 where
  counter gauge histogram derived_summary : MetricKind

pub data MetricUnit : Type 0 where
  count bytes chunks nanoseconds bits_per_second ratio_parts_per_million : MetricUnit

abbrev pub default_limits : TelemetryLimits
default_limits = record {
  metric_series = 100000;
  decision_records = 100000;
  domain_records = 1000000;
  samples = 1000000;
  histogram_boundaries = 64;
  correlation_edges = 4000000;
  serialized_bytes = 1073741824;
}

abbrev pub default_configuration : TelemetryConfiguration
default_configuration = record {
  mode = summary;
  sample_interval_ns = 1000000;
  limits = default_limits;
}

unfoldable pub mode_name : TelemetryMode → String
mode_name off = "off"
mode_name summary = "summary"
mode_name sampled = "sampled"
mode_name full = "full"

unfoldable pub parse_mode : String → Result TelemetryMode
parse_mode mode =
    if str_eq mode "off"
    then ok off
    else if str_eq mode "summary"
    then ok summary
    else if str_eq mode "sampled"
    then ok sampled
    else if str_eq mode "full"
    then ok full
    else err (invalid_argument "unknown telemetry mode")

unfoldable pub kind_name : MetricKind → String
kind_name counter = "counter"
kind_name gauge = "gauge"
kind_name histogram = "histogram"
kind_name derived_summary = "derived_summary"

unfoldable pub unit_name : MetricUnit → String
unit_name count = "count"
unit_name bytes = "bytes"
unit_name chunks = "chunks"
unit_name nanoseconds = "nanoseconds"
unit_name bits_per_second = "bits_per_second"
unit_name ratio_parts_per_million = "ratio_parts_per_million"

-- Reading a mode gives back the mode that was printed.
pub parse_mode-mode_name : (mode : TelemetryMode) → parse_mode (mode_name mode) ≡ ok mode
unfolding parse_mode mode_name
parse_mode-mode_name off = refl
parse_mode-mode_name summary = refl
parse_mode-mode_name sampled = refl
parse_mode-mode_name full = refl
