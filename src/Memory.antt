-- ===== src/Memory.antt =====
-- src/lib.rs (alignment and sizes) and src/memory/mod.rs (addresses).
pub mod Align
pub mod Address
