-- ===== src/Telemetry.antt =====
-- The observability boundary: simulator/{include/nexuslab,src}/telemetry.
pub mod Metrics
pub mod Records
pub mod Configuration
pub mod Labels
pub mod Catalog
pub mod Registry
pub mod Validating
pub mod Session
pub mod Accounts
pub mod Retaining
pub mod Limits
pub mod Sampling
pub mod Attribution
pub mod Balance
pub mod Summary
pub mod Attributing
mod Tests
pub mod Kinds
