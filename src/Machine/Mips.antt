-- ===== src/Machine/Mips.antt =====
-- machine/mipssim.cc and machine/mipssim.h: the MIPS instructions.
pub mod Decode
pub mod Multiply
pub mod Alu
pub mod Execute
pub mod Shifts
