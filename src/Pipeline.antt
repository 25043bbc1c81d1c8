-- ===== src/Pipeline.antt =====
-- internal/pipeline: the processors, their registry and the chain.
pub mod Processors
pub mod Fields
pub mod Panics
pub mod Chain
