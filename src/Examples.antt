-- ===== src/Examples.antt =====
-- The theorems at concrete inputs.
mod Strings
mod Locks
mod Memory
mod Processes
mod Lives
mod Schedulers
mod Files
mod Crashes
mod Calls
mod Blocks
mod Directories
mod Buffers
mod Terminal
