-- ===== src/Snapshotter/Capture.antt =====
-- The capture of the CPU state: snapshotter/src/linux/x86_64/snapshot.c here, and that of i386 in I386.
pub mod I386
pub mod Areas
pub mod Layout64
pub mod Layout32
use process_bridge.Base.{Run, or_fatal}
use process_bridge.Common.X8664.{X8664Regs}
use process_bridge.Snapshotter.Breakpoint.{Tracer, Breakpoint}

unfoldable pub create_snapshot : {W : Type 0} → Tracer W → Breakpoint → Run W X8664Regs
create_snapshot T b = or_fatal (T.get_regs b.pid)
