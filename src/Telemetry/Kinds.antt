-- ===== src/Telemetry/Kinds.antt =====
-- telemetry/records.hpp and records.cpp: the kinds of the records of a session.
use nexus_lab.Prelude.{ℕ, Bool, true, false}
use nexus_lab.Telemetry.Records.{TelemetryObservation}

pub data TelemetryRecordKind : Type 0 where
  counter gauge histogram simulation job collective transfer queue failure : TelemetryRecordKind
  routing_decision placement_decision : TelemetryRecordKind

-- The enumerator's value.
abbrev pub record_kind_value : TelemetryRecordKind → ℕ
record_kind_value counter = 1
record_kind_value gauge = 2
record_kind_value histogram = 3
record_kind_value simulation = 10
record_kind_value job = 11
record_kind_value collective = 12
record_kind_value transfer = 13
record_kind_value queue = 14
record_kind_value failure = 15
record_kind_value routing_decision = 20
record_kind_value placement_decision = 21

abbrev pub record_kind : TelemetryObservation → TelemetryRecordKind
record_kind (TelemetryObservation.counter o) = counter
record_kind (TelemetryObservation.gauge o) = gauge
record_kind (TelemetryObservation.histogram o) = histogram
record_kind (TelemetryObservation.simulation o) = simulation
record_kind (TelemetryObservation.job o) = job
record_kind (TelemetryObservation.collective o) = collective
record_kind (TelemetryObservation.transfer o) = transfer
record_kind (TelemetryObservation.queue o) = queue
record_kind (TelemetryObservation.failure o) = failure
record_kind (TelemetryObservation.routing_decision o) = routing_decision
record_kind (TelemetryObservation.placement_decision o) = placement_decision

abbrev pub is_metric_observation : TelemetryObservation → Bool
is_metric_observation (TelemetryObservation.counter o) = true
is_metric_observation (TelemetryObservation.gauge o) = true
is_metric_observation (TelemetryObservation.histogram o) = true
is_metric_observation _ = false
