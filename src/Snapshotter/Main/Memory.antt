-- ===== src/Snapshotter/Main/Memory.antt =====
-- The memory of the child in the file that a run of snapshotter/src/main.c leaves.
use process_bridge.Snapshotter.Kernel.{Kernel}
use process_bridge.Snapshotter.Elf.{Elf}
