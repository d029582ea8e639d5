-- ===== src/Vfs.antt =====
-- The virtual filesystem, src/kernel/vfs.c.
pub mod Node
pub mod Data
pub mod Tree
pub mod Links
pub mod Rename
pub mod Listing
pub mod Directories
pub mod Sorted
pub mod Path
pub mod Text
pub mod Slots
pub mod Contents
pub mod Decimal
pub mod Tests
