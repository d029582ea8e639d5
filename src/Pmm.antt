-- ===== src/Pmm.antt =====
-- The physical memory manager, src/kernel/pmm.c.
pub mod State
pub mod Bitmap
pub mod Reserve
pub mod Init
pub mod Alloc
pub mod Scan
pub mod Valid
pub mod Take
pub mod Release
pub mod Keep
pub mod Reservation
pub mod Run
pub mod Held
pub mod Tests
