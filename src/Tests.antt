-- ===== src/Tests.antt =====
-- Small files on which the definitions are run, and the examples of the theorems.
pub mod Files
pub mod Runs
pub mod Examples
pub mod Worlds
pub mod Syncing
pub mod Settling
pub mod Mounts
pub mod Nodes
pub mod Scanning
pub mod Storing
pub mod Hashing
pub mod Reading
