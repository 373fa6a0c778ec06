-- ===== src/Scheduling.antt =====
-- The placement of jobs on workers: simulator/{include/nexuslab,src}/scheduling.
pub mod Inventory
pub mod Policy
pub mod Sorted
pub mod Placing
pub mod Allocating
pub mod Keeping
mod Tests
