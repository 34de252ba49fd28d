-- ===== src/Loader/Cpu.antt =====
-- loader/src/cpu_state_dump.c and loader/include/snapshot_variant.h: the CPU state of a snapshot,
-- by the mode of the engine.
pub mod Termination
use process_bridge.Base.{ℕ, List, Run, if◌then◌else◌, ◌==◌, pure}
use process_bridge.Common.X8664.{x8664_regs_of}
use process_bridge.Common.I386State.{i386_state_of}
use process_bridge.Common.UserDesc.{DescLayout}
use process_bridge.Loader.Host.{Host}
use process_bridge.Loader.X8664.{dump_x86_64_cpu_state}
use process_bridge.Loader.I386.{dump_i386_cpu_state}
use process_bridge.Loader.Check.{minus_one}

-- `cpu_state_t`. Its union is the bytes that were copied into it.
pub record CpuState : Type 0 where
  pub arch : ℕ
  pub mode : ℕ
  pub variant : List ℕ

module _ (H : Host) (L : DescLayout) (uc : ℕ) where
  unfoldable pub dump_cpu_state : CpuState → Run H.World ℕ
  dump_cpu_state s =
      if s.mode == H.uc_mode_32
      then dump_i386_cpu_state H uc (i386_state_of L s.variant)
      else (if s.mode == H.uc_mode_64
          then dump_x86_64_cpu_state H uc (x8664_regs_of s.variant)
          else pure minus_one)
