-- ===== src/Filesys.antt =====
-- filesys/: the stand-alone file system of Nachos (the branch without FILESYS_STUB).
pub mod Directory
pub mod FileHeader
pub mod FileSystem
pub mod OpenFile
pub mod SynchDisk
pub mod Transfer
