-- ===== src/SfsTurbo.antt =====
-- The SFS Turbo driver: shared file systems (pkg/sfsturbo).
pub mod Sdk
pub mod Services
pub mod Driver
pub mod Controller
pub mod Node
mod Tests
