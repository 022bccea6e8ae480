-- ===== src/Catalog.antt =====
-- The catalog service (apps/catalog).
pub mod Model
pub mod Repository
pub mod Cache
pub mod Service
pub mod Frames
pub mod Coherence
pub mod Mutations
pub mod Reads
pub mod Freshness
pub mod Access
pub mod Controller
pub mod Overwrites
mod Tests
