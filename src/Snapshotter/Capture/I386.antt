-- ===== src/Snapshotter/Capture/I386.antt =====
-- snapshotter/src/linux/i386/snapshot.c
use process_bridge.Base.{
  ℕ, zero, suc, Option, some, none, List, Run, pure, call, or_fatal, set, ◌+◌, ◌-◌, ◌>>=◌,
  if◌then◌else◌, leb, ◌&&◌, ltb, ub,
}
use process_bridge.Common.I386.{I386Regs}
use process_bridge.Common.I386State.{I386State, gdt_entry_tls_entries}
use process_bridge.Common.UserDesc.{UserDesc}

-- The requests of `ptrace` that the capture makes; one that fails by -1 gives no value.
pub record Tracer32 (W : Type 0) : Type 0 where
  pub get_regs : ℕ → W → Option I386Regs × W
  pub get_thread_area : ℕ → ℕ → W → Option UserDesc × W

abbrev pub gdt_entry_tls_min_true_i386 : ℕ
gdt_entry_tls_min_true_i386 = 6

abbrev pub gdt_entry_tls_min_comp_mode : ℕ
gdt_entry_tls_min_comp_mode = 12

-- The store of `ptrace` at `&snapshot->tls[i - gdt_entry_tls_min]`; one outside of `tls[3]` is
-- undefined.
unfoldable pub tls_store : {W : Type 0} → ℕ → ℕ → UserDesc → List UserDesc → Run W (List UserDesc)
tls_store i tls_min area tls =
    if leb tls_min i && ltb (i - tls_min) gdt_entry_tls_entries
    then pure (set tls (i - tls_min) area)
    else ub

module _ {W : Type 0} (T : Tracer32 W) (pid : ℕ) where
  -- The loop from `i` on, for the rounds that are left.
  unfoldable pub thread_areas : ℕ → ℕ → ℕ → List UserDesc → Run W (List UserDesc)
  thread_areas zero i tls_min tls = pure tls
  thread_areas (suc rounds) i tls_min tls = do
    area ← or_fatal (T.get_thread_area pid i)
    stored ← tls_store i tls_min area tls
    thread_areas rounds (i + 1) tls_min stored

  -- The first index and the loop, by whether the first request was answered.
  unfoldable pub areas_from : Option UserDesc → List UserDesc → Run W (List UserDesc)
  areas_from (some area) tls = do
    stored ← tls_store gdt_entry_tls_min_true_i386 gdt_entry_tls_min_true_i386 area tls
    thread_areas (gdt_entry_tls_entries - 1) (gdt_entry_tls_min_true_i386 + 1)
        gdt_entry_tls_min_true_i386 stored
  areas_from none tls =
      thread_areas gdt_entry_tls_entries gdt_entry_tls_min_comp_mode gdt_entry_tls_min_comp_mode tls

  -- `uninitialised` is what `tls` held.
  unfoldable pub create_snapshot : List UserDesc → Run W I386State
  create_snapshot uninitialised = do
    regs ← or_fatal (T.get_regs pid)
    first ← call (T.get_thread_area pid gdt_entry_tls_min_true_i386)
    tls ← areas_from first uninitialised
    pure (record { regs = regs; tls = tls })
