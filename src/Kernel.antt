-- ===== src/Kernel.antt =====
-- The core of the kernel proper, src/kernel/main.c.
pub mod Mmap
pub mod Ring
pub mod Task
pub mod UserCopy
pub mod Signal
pub mod Tty
pub mod Input
pub mod Keyboard
pub mod Mouse
pub mod Paths
pub mod Files
