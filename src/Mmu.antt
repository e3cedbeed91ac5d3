-- ===== src/Mmu.antt =====
-- src/memory/mmu: pages and regions, the page allocator, the translation table, the mapping
-- records and the kernel's mapping calls.
pub mod Region
pub mod PageAlloc
pub mod Descriptor
pub mod Table
pub mod Records
pub mod Kernel
pub mod Enable
