-- ===== src/Tests.antt =====
-- Concrete instances of what the program calls, and runs on them.
pub mod Machine
pub mod Layout
pub mod Samples
pub mod Tracee
pub mod Process
pub mod Create
pub mod Descriptors
pub mod Restore
pub mod Live
pub mod Logged
pub mod ElfFile
pub mod Captured
pub mod Shell
pub mod Copied
pub mod Ring3
pub mod Restore32
pub mod Copied32
pub mod Started
pub mod Paged
