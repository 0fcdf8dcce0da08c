-- ===== src/Layer.antt =====
-- internal/layer: the identity of a tooling layer.
pub mod Stream
pub mod Search
pub mod Commands
pub mod Image
pub mod Choice
pub mod Provenance
pub mod Ends
pub mod Settled
pub mod Unambiguous
pub mod Visited
mod Tests
