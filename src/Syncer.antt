-- ===== src/Syncer.antt =====
-- The package syncer: local stubs and sidecars kept in step with a remote.
pub mod Base
pub mod Sidecar
pub mod World
pub mod Publish
pub mod Media
pub mod Upload
pub mod Reconcile
pub mod Scan
pub mod Store
pub mod Hash
pub mod Settling
pub mod Steady
pub mod Safety
