-- ===== src/Edge.antt =====
-- cmd/edge, the edge's program.
pub mod Config
pub mod Handlers
