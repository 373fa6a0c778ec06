-- ===== src/Collective.antt =====
-- Collective operations: simulator/{include/nexuslab,src}/collective.
pub mod Planner
mod Tests
