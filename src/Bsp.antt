-- ===== src/Bsp.antt =====
-- src/bsp: what the board support package tells the rest of the kernel.
pub mod Layout
