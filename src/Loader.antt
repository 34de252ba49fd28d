-- ===== src/Loader.antt =====
-- The loader: restores a snapshot into a Unicorn engine.
pub mod Gdt
pub mod Host
pub mod Engine
pub mod Registers
pub mod Check
pub mod Writes
pub mod X8664
pub mod I386
pub mod Cpu
pub mod Dump
pub mod Create
