-- ===== src/Obs/Services.antt =====
-- pkg/obs/services
pub mod Client
pub mod Buckets
pub mod Objects
pub mod Deletion
pub mod Markers
