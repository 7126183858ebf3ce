-- ===== src/Demo.antt =====
-- The demonstration kernel of BIOS/hw, BIOS/ipc and BIOS/sw, which no build file names:
-- its parts, and their start and loop.
pub mod Error
pub mod Search
pub mod Softirq
pub mod Irq
pub mod Power
pub mod Shm
pub mod Buddy
pub mod Pages
pub mod Channel
pub mod Process
pub mod Permission
pub mod Chrdev
pub mod Kernel
pub mod Bridge
