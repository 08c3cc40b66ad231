-- ===== src/Mountfs.antt =====
-- The package mountfs: a read-only file system in which media files may be shown as stubs.
pub mod Base
pub mod Fingerprint
pub mod Cache
pub mod View
pub mod Stubs
pub mod Process
pub mod Attributes
pub mod Node
