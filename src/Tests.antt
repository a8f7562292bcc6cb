-- ===== src/Tests.antt =====
-- Concrete devices, disks and states, and the theorems applied to them.
mod Devices
mod Blocks
mod Files
mod Open
mod Directories
mod Descriptors
mod Allocation
mod Rings
mod Sectors
mod Starting
mod Calls
mod Copies
mod Sleeping
mod SelfTesting
mod Running
mod Beside
mod Ring
mod Times
mod Printing
