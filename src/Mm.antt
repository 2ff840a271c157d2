-- ===== src/Mm.antt =====
-- The crate `mm` (mm/src): physical pages, small objects, and the address spaces of processes.
pub mod Buddy
pub mod Slab
pub mod Mmu
pub mod Vmm
pub mod Cow
mod Tests
