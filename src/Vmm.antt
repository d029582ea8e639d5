-- ===== src/Vmm.antt =====
-- The virtual memory manager, src/kernel/vmm.c.
pub mod Machine
pub mod Walk
pub mod Map
pub mod Cow
pub mod Fork
pub mod Destroy
pub mod Entry
pub mod Read
pub mod Unmap
pub mod Create
pub mod Ensure
pub mod Mapping
pub mod MapTranslate
pub mod Protect
pub mod Fault
pub mod Share
pub mod Tests
