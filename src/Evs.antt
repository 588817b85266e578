-- ===== src/Evs.antt =====
-- The EVS driver: block volumes (pkg/evs).
pub mod Sdk
pub mod Services
pub mod Driver
pub mod Controller
pub mod Node
mod Tests
