-- ===== src/Userprog.antt =====
-- userprog/: what the kernel keeps for user programs.
pub mod BitMap
pub mod AddrSpace
pub mod User
pub mod Exception
pub mod Processes
pub mod SynchConsole
