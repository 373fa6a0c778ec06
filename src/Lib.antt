-- ===== src/Lib.antt =====
-- NexusLab simulates training clusters: a discrete-event engine runs the events of a chunk-level
-- network, of collective operations and of a workload of jobs. This library models its engine, the
-- directed links of its network, its routing policies, the planner of its ring collectives,
-- the placement of its jobs and its telemetry.
--
-- The parts and their files (the C++ paths are from the repository's root):
--   Prelude     shared notation. Prelude/Except has the exceptions that the code throws, as values;
--               Prelude/State has operations on an object that may throw and that keep what they
--               wrote before the throw.
--   Topology    simulator/include/nexuslab/topology: Topology/Entities has the links of
--               entities.hpp, Topology/Resources its machines, switches and ports, and the
--               generator of id.hpp. Topology/Graph is how graph.cpp builds a graph and
--               Topology/Operation which parts of it are up.
--   Telemetry   simulator/{include/nexuslab,src}/telemetry: what the components report.
--               Telemetry/Metrics, Labels, Configuration, Catalog and Registry are metrics.hpp and
--               metrics.cpp, Telemetry/Records and Kinds records.hpp and records.cpp,
--               Telemetry/Session session.hpp and session.cpp. Telemetry/Summary is the builder of
--               summary.hpp and summary.cpp, Telemetry/Attribution the phases of a job in it.
--   Sim         simulator/{include/nexuslab,src}/sim. Sim/Time is time.hpp, Sim/EventId event_id,
--               Sim/Event event.hpp with the payloads, Sim/EventQueue event_queue, Sim/Rng
--               deterministic_rng, Sim/Trace trace. The class Simulation is three files:
--               Sim/Simulation has the state, the constructor and the reports, Sim/Context
--               `schedule`, `cancel`, `stop` and the other operations of a handler, Sim/Run the
--               loop `run` with `next_dispatchable_event`, `finish` and `fail`.
--   Transport   simulator/{include/nexuslab,src}/transport. Transport/Ids is the generator of
--               types.hpp, Transport/Statistics statistics.hpp, Transport/Timing timing, and
--               Transport/LinkQueue link_queue. Transport/LinkService is link_service: a queue in a
--               running simulation, with the updates of its counters in LinkService/Count.
--               Transport/Runtime is runtime.hpp with the constructor's loop and the tests of routes,
--               Runtime/Reports telemetry.cpp, Runtime/Progress record_terminal of progress.cpp,
--               Runtime/Handlers and Completion the handlers of runtime.cpp, Runtime/Failures those
--               of failure.cpp and of changed links, Runtime/Submission how chunks enter,
--               Runtime/Snapshot where they are.
--   Collective  Collective/Planner is collective/model.hpp and planner.cpp of the same two
--               directories.
--   Routing     simulator/{include/nexuslab,src}/routing: Routing/Policy is policy.hpp and policy.cpp.
--   Workload    simulator/{include/nexuslab,src}/workload: Workload/Model is model.hpp and model.cpp with
--               the record of engine.hpp, Workload/Metrics `inspect` of metrics.cpp.
--   Scheduling  simulator/{include/nexuslab,src}/scheduling. Scheduling/Inventory is inventory.cpp,
--               Scheduling/Policy policy.cpp.
-- The proofs about the engine are in Sim/Quiet (what reports leave alone), Sim/Invariant,
-- Sim/Scheduling, Sim/Cancelling, Sim/Dispatching, Sim/Ending and Sim/Returning, and in the modules
-- below Sim/EventQueue and Sim/Trace; those about a link are below Transport/LinkQueue and
-- Transport/LinkService; Runtime/Keeping, Moving, Rules, Steps and Dropping are about the states of chunks,
-- Runtime/Counting and Runtime/Completing about the ends of transfers, Runtime/Splitting about the chunks of one and
-- Runtime/Capacity about the limits. Scheduling/Sorted is about the binary search, Scheduling/Placing about the
-- policies, Scheduling/Allocating and Scheduling/Keeping about the inventory; Prelude/Sorting has
-- the sorting of a list and what it keeps. Routing/Choosing is about the policies,
-- Telemetry/Accounts, Telemetry/Retaining, Telemetry/Limits and Telemetry/Sampling about a session,
-- Telemetry/Validating about the registry, Telemetry/Balance and Telemetry/Attributing about the
-- summary, Topology/Outage about the state of a link, Workload/Accounting about the account of a job.
--
-- State. A simulation is a record with a field for each member of the class. A hash set of IDs is
-- the list of its members, and the map of the metadata is an association list, since nothing
-- depends on their order. The priority queue is the list of its events in the order in which it
-- hands them out. A strong ID, a time and a duration are the number inside; numbers are natural,
-- and a 64-bit sum that the code lets wrap is reduced by 2 ^ 64 where it stands.
--
-- Parameters. The engine std::mt19937_64 is its state and its call operator, and the telemetry sink
-- its two operations, in the record Env of Sim/Env. The builder behind a session is its operations,
-- in the record SummaryOperations of Telemetry/Session, which summary_operations of
-- Telemetry/Summary fills. The dispatcher of `run` is a function on its own
-- state and the simulation, which may throw. Where a theorem says that the sink keeps its mode, it
-- assumes KeepsMode: recording leaves a session on or off as it was.
--
-- Fuel. `next_dispatchable_event` runs on the size of the queue and one more, which is always
-- enough. `run` takes its fuel from outside, since a dispatcher may schedule events for ever, and so
-- does the rejection loop of `uniform_below`, since an engine may never answer an accepted number.
-- The loop over the sample boundaries of a session runs on the time and one more, which is enough for
-- the positive interval that the constructor demands.
--
-- The invariant of a simulation (Inv of Sim/Invariant): the queue is sorted and holds no ID twice,
-- the pending set holds the IDs of the queue, the cancelled IDs are pending, each pending ID has been
-- given out, no event is in the past, and metadata is kept for the pending events if the trace or
-- telemetry is on. The accounts of a link (Inv of Transport/LinkQueue/Bounds): the waiting bytes are
-- the sum of the waiting chunks, they and the maximum are within the capacity, no waiting chunk is
-- empty, and nothing waits while nothing is served. A link in a simulation (Inv of
-- Transport/LinkService/Conservation) has a completion scheduled, and a time of service running,
-- exactly while a chunk is in service. An inventory is in order (Ascending of Scheduling/Sorted) when
-- the IDs of its workers ascend strictly. A telemetry session (Within of Telemetry/Accounts) is within
-- the limits of its configuration, and its counters are those of the records that it keeps. In a
-- summary (Kept of Telemetry/Attributing) the phases of each job add up to the time since it was
-- first seen (Balanced of Telemetry/Balance).
-- A transport runtime (WithinLimits of Transport/Runtime/Capacity) holds no more chunks and hops than
-- its limits say.
--
-- A transport runtime is a record of its members, with the topology that it points to and the
-- simulation behind the context of a handler. Its telemetry sink is the sink of that simulation, or
-- none. What each handler may do to the state of a chunk is a rule of
-- Transport/Runtime/Rules. An enum value that no enumerator names is a value of the model for the
-- operational state of a part alone; that check of a link direction is left out.
--
-- Not modelled: an allocation that fails; the serialization of telemetry; the shortest paths of a
-- topology graph, its validation and its generators; the paths and the router above the routing
-- policies; the runtime of collectives; the engine of the workload; the command line, input and
-- output formats.
pub mod Prelude
pub mod Topology
pub mod Telemetry
pub mod Sim
pub mod Transport
pub mod Collective
pub mod Scheduling
pub mod Routing
pub mod Workload
