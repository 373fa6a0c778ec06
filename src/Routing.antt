-- ===== src/Routing.antt =====
-- The choice of a route: simulator/{include/nexuslab,src}/routing.
pub mod Policy
pub mod Choosing
mod Tests
