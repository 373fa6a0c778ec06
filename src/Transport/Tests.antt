-- ===== src/Transport/Tests.antt =====
-- The links and the identities of transport/ on concrete inputs.
use nexus_lab.Prelude.{ℕ, ◌+◌, ◌*◌, false, true, refl, some, arith}
use nexus_lab.Topology.Entities.{a_to_b}
use nexus_lab.Transport.Timing.{
  bit_nanoseconds_per_byte, serialization_delay, IsCeiling, serialization_delay-IsCeiling,
}
use nexus_lab.Transport.LinkQueue.{
  DirectedLinkConfiguration, TransferChunk, DirectedLinkQueue, empty_queue, admit, complete_service,
  drain,
}
use nexus_lab.Transport.LinkQueue.Bounds.{
  Inv, empty_queue-Inv, Made, new_queue_cases, admit-Inv, complete_service-Inv, drain-Inv,
}
use nexus_lab.Sim.Env.{Env}
use nexus_lab.Sim.Event.{TransmissionCompleteEvent}
use nexus_lab.Sim.Simulation.{Simulation, new}
use nexus_lab.Sim.Trace.{enabled}
use nexus_lab.Prelude.Except.{ok}
use nexus_lab.Transport.LinkService
use nexus_lab.Transport.LinkService.{
  DirectedLinkService, handle_completion, reconcile_down, waiting_traffic,
}
use nexus_lab.Transport.LinkService.Conservation.{Sound}
use nexus_lab.Transport.LinkService.Conservation
use nexus_lab.Transport.LinkService.Operations.{
  SoundBy, Finished, Drains, admit-Sound, handle_completion-Sound, reconcile_down-Sound,
}
use nexus_lab.Transport.Statistics.{no_statistics}
use nexus_lab.Transport.LinkQueue.Contents.{contents, Completes, complete_service_cases}

abbrev configuration : DirectedLinkConfiguration
configuration = record {
  link = record { link = 4; direction = a_to_b };
  bandwidth = 1000;
  propagation_delay = 5;
  waiting_buffer_capacity = 100;
  marking_threshold = some 50;
}

abbrev chunk : ℕ → TransferChunk
chunk bytes = record { transfer = 1; id = bytes; bytes = bytes; hop_index = 0; marked = false }

abbrev serving : DirectedLinkQueue
serving = (admit (chunk 30) (empty_queue configuration)).1

abbrev waiting : DirectedLinkQueue
waiting = (admit (chunk 60) serving).1

serving-Inv : Inv serving
serving-Inv = admit-Inv (chunk 30) (empty_queue configuration) (empty_queue-Inv configuration)

waiting-Inv : Inv waiting
waiting-Inv = admit-Inv (chunk 60) serving serving-Inv

new_queue_cases_example : Made configuration
new_queue_cases_example = new_queue_cases configuration

admit-Inv_example : Inv (admit (chunk 60) serving).1
admit-Inv_example = admit-Inv (chunk 60) serving serving-Inv

complete_service-Inv_example : Inv (complete_service waiting).1
complete_service-Inv_example = complete_service-Inv waiting waiting-Inv

drain-Inv_example : Inv (drain waiting).1
drain-Inv_example = drain-Inv waiting waiting-Inv

complete_service_cases_example : Completes (contents waiting) waiting (complete_service waiting)
complete_service_cases_example = complete_service_cases waiting waiting-Inv

serialization_delay-IsCeiling_example :
    IsCeiling 1000 (3 * bit_nanoseconds_per_byte) (serialization_delay 3 1000)
serialization_delay-IsCeiling_example =
    serialization_delay-IsCeiling 3 1000 (omega arith) (omega arith) (omega arith) (omega arith)

abbrev counted : Env ℕ ℕ
counted = record {
  seeded = λ seed. seed;
  draw = λ g. (g, g + 1);
  enabled = λ s. true;
  record_observation = λ time correlation observation s. (ok tt, s + 1);
}

abbrev simulation : Simulation ℕ ℕ
simulation = new counted 7 enabled 0

-- A link that serves a chunk of 30 bytes while one of 60 waits.
abbrev busy : DirectedLinkService
busy = record {
  queue = waiting;
  scheduled_completion = some 12;
  statistics = no_statistics;
  busy_since = some 0;
}

busy-Inv : Conservation.Inv busy
unfolding admit
busy-Inv = record { queue = waiting-Inv; booked = refl; clocked = refl }

admit-Sound_example : Sound busy (LinkService.admit counted (chunk 41) busy simulation)
admit-Sound_example = admit-Sound counted (chunk 41) busy simulation busy-Inv

abbrev completion : TransmissionCompleteEvent
completion = record { link = 4; chunk = 30; hop_index = 0; direction = a_to_b }

handle_completion-Sound_example :
    SoundBy (Finished busy) busy (handle_completion counted completion busy simulation)
handle_completion-Sound_example =
    handle_completion-Sound counted completion busy simulation busy-Inv

reconcile_down-Sound_example : SoundBy (Drains busy) busy (reconcile_down counted busy simulation)
reconcile_down-Sound_example = reconcile_down-Sound counted busy simulation busy-Inv
