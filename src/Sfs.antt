-- ===== src/Sfs.antt =====
-- The SFS driver: file systems of the older service (pkg/sfs).
pub mod Sdk
pub mod Driver
pub mod Shares
pub mod Controller
pub mod Node
mod Tests
