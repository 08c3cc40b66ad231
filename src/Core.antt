-- ===== src/Core.antt =====
-- The package core: sparse plans, bounded sources and the container probes.
pub mod Base
pub mod Plan
pub mod Source
pub mod Action
pub mod Ebml
pub mod Stub
pub mod ReadSeeker
pub mod PlanHash
pub mod MatroskaPrefix
pub mod Matroska
pub mod Mp4
pub mod Probe
