-- ===== src/Transport.antt =====
-- Chunk-level transport: simulator/{include/nexuslab,src}/transport.
pub mod Ids
pub mod Statistics
pub mod Timing
pub mod LinkQueue
pub mod LinkService
pub mod Runtime
mod Tests
