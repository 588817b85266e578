-- ===== src/Evs/Services.antt =====
-- pkg/evs/services: the cloud's calls with their clients, errors and waits.
pub mod Volumes
pub mod Computes
pub mod Snapshots
pub mod Effects
pub mod Jobs
