-- ===== src/Topology.antt =====
-- The cluster model: simulator/{include/nexuslab,src}/topology.
pub mod Entities
pub mod Resources
pub mod Graph
pub mod Operation
pub mod Outage
mod Tests
