-- ===== src/Examples.antt =====
-- The theorems on concrete states: that their hypotheses can hold.
mod Buffers
mod Booted
mod Blocks
mod Kernel
mod Devices
mod Paging
mod Tasks
mod Arrays
mod Disk
mod Frames
mod Text
