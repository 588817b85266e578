-- ===== src/Obs.antt =====
-- The driver of pkg/obs: buckets that are parallel file systems.
pub mod Sdk
pub mod Services
pub mod Driver
pub mod Controller
pub mod Command
pub mod Node
pub mod Connector
mod Tests
