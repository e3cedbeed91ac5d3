-- ===== src/Gic.antt =====
-- The GICv2 driver of src/bsp/drivers/gicv2 with `BoundedUsize` of src/bsp/drivers/common.rs.
pub mod Gicd
pub mod Gicc
pub mod Handlers
