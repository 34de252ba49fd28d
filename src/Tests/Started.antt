-- ===== src/Tests/Started.antt =====
-- The run of `main` on a concrete child, restored in the emulator.
use process_bridge.Base.{Outcome, ℕ, length}
use process_bridge.Snapshotter.Mappings
use process_bridge.Loader.X8664
use process_bridge.Loader.Dump.{restore_from}
use process_bridge.Tests.Shell.{left, ended}
use process_bridge.Tests.Machine.{Machine, machine_host}
use process_bridge.Tests.Samples.{machine_in}
use process_bridge.Tests.Layout.{sample_layout}

abbrev resumed : Outcome Machine ℕ
resumed =
    restore_from machine_host sample_layout 1 (left ended).out (length (left ended).out)
      (machine_in 8)
