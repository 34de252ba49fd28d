-- ===== src/Snapshotter/Mappings/I386.antt =====
-- snapshotter/src/linux/mappings_reader.c and snapshotter/src/linux/snapshot_dump.c in the i386
-- build, where `size_t` and `uintptr_t` have 32 bits.
pub mod Narrow
pub mod Added
use process_bridge.Base.{
  ℕ, zero, suc, List, none, some, true, false, Run, pure, fatal_if, call, or_fatal, out_of_fuel,
  ltb, if◌then◌else◌, ◌==◌, not, ◌>>=◌, ◌>>◌, ◌+◌, ◌-◌, ◌%◌, ◌^◌,
}
use process_bridge.Snapshotter.Kernel.{Kernel}
use process_bridge.Snapshotter.Maps.{MapsIter, create_maps_iter, next}
use process_bridge.Common.MapsEntry.{MapsEntry, maps_entry_bytes}
use process_bridge.Common.UserDesc.{DescLayout}
use process_bridge.Common.I386State.{I386State, i386_state_bytes}
use process_bridge.Snapshotter.Mappings.{buffer_size, chunk_bytes, is_special}

-- `size_t remaining = entry->end - entry->start`: 64 bits, cut to 32.
abbrev pub entry_size32 : MapsEntry → ℕ
entry_size32 e = (e.end + 2 ^ 64 - e.start) % 2 ^ 64 % 2 ^ 32

module _ (K : Kernel) where
  -- The `while` loop over the chunks of a mapping. `fuel` bounds its rounds.
  unfoldable pub dump_chunks32 : ℕ → ℕ → ℕ → ℕ → ℕ → ℕ → Run K.World (Unit {0})
  dump_chunks32 zero pid file readable address remaining = λ w. out_of_fuel
  dump_chunks32 (suc fuel) pid file readable address remaining = elim (remaining == 0) [
    | true ↦ pure tt
    | false ↦
        let chunk = if ltb buffer_size remaining then buffer_size else remaining in
        do
          bytes ← chunk_bytes K pid readable address chunk
          written ← call (K.fwrite file bytes)
          fatal_if (not written)
          dump_chunks32 fuel pid file readable ((address + chunk) % 2 ^ 32) (remaining - chunk)
  ]

  unfoldable pub dump_entry32 : ℕ → ℕ → MapsEntry → Run K.World (Unit {0})
  dump_entry32 pid file e = if is_special e.path then pure tt else (do
    written ← call (K.fwrite file (maps_entry_bytes e))
    fatal_if (not written)
    dump_chunks32 (suc (entry_size32 e)) pid file e.read (e.start % 2 ^ 32) (entry_size32 e))

  -- The `for` loop over the entries. `fuel` bounds its rounds.
  unfoldable pub dump_entries32 : ℕ → ℕ → ℕ → MapsIter → Run K.World (Unit {0})
  dump_entries32 zero pid file iter = λ w. out_of_fuel
  dump_entries32 (suc fuel) pid file iter = do
    entry ← next K iter
    elim entry [
      | none ↦ pure tt
      | some e ↦ do
        dump_entry32 pid file e
        dump_entries32 fuel pid file (record { file = iter.file; path = e.path })
    ]

  unfoldable pub dump_mappings_content32 : ℕ → ℕ → ℕ → Run K.World (Unit {0})
  dump_mappings_content32 fuel pid file = do
    iter ← create_maps_iter K pid
    allocated ← call (K.malloc buffer_size)
    fatal_if (not allocated)
    dump_entries32 fuel pid file iter
    flushed ← call (K.fflush file)
    fatal_if (not flushed)

  -- `dump_snapshot`, by the bytes of its `process_state_t`.
  unfoldable pub write_snapshot32 : ℕ → List ℕ → ℕ → List ℕ → Run K.World (Unit {0})
  write_snapshot32 fuel snapshot_bytes pid filename = do
    file ← or_fatal (K.fopen_wb filename)
    written ← call (K.fwrite file snapshot_bytes)
    fatal_if (not written)
    dump_mappings_content32 fuel pid file
    closed ← call (K.fclose file)
    fatal_if (not closed)

module _ (K : Kernel) (L : DescLayout) where
  unfoldable pub dump_snapshot : ℕ → I386State → ℕ → List ℕ → Run K.World (Unit {0})
  dump_snapshot fuel snapshot = write_snapshot32 K fuel (i386_state_bytes L snapshot)
