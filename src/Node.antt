-- ===== src/Node.antt =====
-- What the node servers use of the host: pkg/utils/mounts, pkg/utils/blockdevice and pkg/utils/metadatas.
pub mod Host
pub mod BlockDevice
pub mod Mounts
pub mod Metadatas
pub mod Shell
pub mod Tests
