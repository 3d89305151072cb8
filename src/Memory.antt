-- ===== src/Memory.antt =====
-- The buffers of yacul/memory.
pub mod Buffer
pub mod Arena
