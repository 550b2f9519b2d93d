-- ===== src/Machine.antt =====
-- machine/: the simulated hardware.
pub mod Interrupt
pub mod Memory
pub mod Mips
pub mod Disk
pub mod Timer
pub mod Console
pub mod Network
