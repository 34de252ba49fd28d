-- ===== src/Pipeline.antt =====
-- The two programs together: the file of snapshotter/src/linux/snapshot_dump.c is read by
-- loader/src/dump.c.
pub mod Captured
pub mod Sections
pub mod Copied
pub mod Copied32
pub mod Resumed
pub mod Started
pub mod Live
use process_bridge.Base.{◌≡◌, ◌≢◌, ℕ, List, returned, length, some, All, sym, subst, ◌>>◌}
use process_bridge.Common.X8664.{X8664Regs, IsX8664Regs}
use process_bridge.Common.Snapshot.{Section, IsSection}
use process_bridge.Common.UserDesc.{DescLayout}
use process_bridge.Loader.Host.{Host}
use process_bridge.Loader.Dump.{restore_from}
use process_bridge.Loader.Dump.Restore.{restore_from-x8664}
use process_bridge.Loader.Dump.Sections.{load_sections}
use process_bridge.Loader.X8664
use process_bridge.Snapshotter.Kernel.{Kernel, Streams, HasStreams, HasMaps}
use process_bridge.Snapshotter.Mappings
use process_bridge.Snapshotter.Mappings.File.{dump_snapshot-sections}

-- Where the x86_64 snapshotter returns, with streams and lines that keep their laws and registers
-- of 64 bits, the loader restores the bytes that it wrote, in an engine in 64-bit mode where the
-- codes of the two modes differ, by loading well-formed sections one by one and then the
-- registers that the snapshotter was given.
pub dump_snapshot-restore_from :
    (K : Kernel) (S : Streams K)
    → HasStreams K S
    → HasMaps K
    → (fuel : ℕ) (s : X8664Regs) (pid : ℕ) (filename : List ℕ) (w w' : K.World) → IsX8664Regs s
    → Mappings.dump_snapshot K fuel s pid filename w ≡ returned tt w'
    → (H : Host) (L : DescLayout) (uc : ℕ) → H.uc_mode_32 ≢ H.uc_mode_64
    → (v v1 v2 : H.World) (arch : ℕ) → H.uc_query_arch uc v ≡ (arch, v1)
    → H.uc_query_mode uc v1 ≡ (H.uc_mode_64, v2)
    → (file : ℕ) × (ss : List Section) × ((K.fopen_wb filename w).0 ≡ some file)
      × All IsSection ss
      × (restore_from H L uc (S.contents file w') (length (S.contents file w')) v
          ≡ (load_sections H uc ss >> X8664.dump_x86_64_cpu_state H uc s) v2)
dump_snapshot-restore_from K S streams maps fuel s pid filename w w' fits h H L uc apart v v1 v2
      arch qa qm =
    let (file, ss, opened, good, bytes) =
      dump_snapshot-sections K S streams maps fuel s pid filename w w' h in
    (
      file,
      ss,
      opened,
      good,
      subst
          (λ (b : List ℕ).
            restore_from H L uc b (length b) v
            ≡ (load_sections H uc ss >> X8664.dump_x86_64_cpu_state H uc s) v2)
          (sym bytes) (restore_from-x8664 H L uc s ss fits good apart v v1 v2 arch qa qm),
    )
