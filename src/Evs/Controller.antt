-- ===== src/Evs/Controller.antt =====
-- The controller service of the EVS driver (pkg/evs/controllerserver.go), one module for each
-- group of calls.
pub mod Create
pub mod Publish
pub mod Volumes
pub mod Snapshots
pub mod Codes
