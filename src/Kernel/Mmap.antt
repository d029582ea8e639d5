-- ===== src/Kernel/Mmap.antt =====
-- src/kernel/main.c: the address ranges of a process.
pub mod Lazy
pub mod Spans
pub mod Covered
pub mod Gap
pub mod GapFree
pub mod Slots
pub mod Tests
