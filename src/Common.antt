-- ===== src/Common.antt =====
-- The structs that the snapshotter writes and the loader reads: common/include/linux.
pub mod MapsEntry
pub mod X8664
pub mod I386
pub mod UserDesc
pub mod I386State
pub mod Snapshot
