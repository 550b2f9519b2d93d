-- ===== src/Tests.antt =====
-- Concrete inputs for the theorems.
mod Bits
mod Disk
mod Copying
mod Ready
mod Cells
mod Clock
mod Memory
mod Products
mod Decoding
mod Files
mod TwoFiles
mod Drive
mod Turns
mod Monitors
mod Terminal
mod Family
mod Programs
mod Messages
