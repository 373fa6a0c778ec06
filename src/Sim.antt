-- ===== src/Sim.antt =====
-- The discrete-event engine: simulator/{include/nexuslab,src}/sim.
pub mod Time
pub mod EventId
pub mod Event
pub mod EventQueue
pub mod Rng
pub mod Trace
pub mod Env
pub mod Simulation
pub mod Context
pub mod Run
pub mod Quiet
pub mod Invariant
pub mod Scheduling
pub mod Cancelling
pub mod Dispatching
pub mod Ending
pub mod Returning
mod Tests
