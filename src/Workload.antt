-- ===== src/Workload.antt =====
-- The jobs of a workload: simulator/{include/nexuslab,src}/workload.
pub mod Model
pub mod Metrics
pub mod Accounting
mod Tests
