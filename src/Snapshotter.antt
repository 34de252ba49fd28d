-- ===== src/Snapshotter.antt =====
-- snapshotter/: the process is traced, and its state is written to a file.
pub mod Kernel
pub mod Maps
pub mod Mappings
pub mod Breakpoint
pub mod Elf
pub mod ProcessInfo
pub mod Capture
pub mod Main
