-- ===== src/Snapshotter/Mappings.antt =====
-- snapshotter/src/linux/mappings_reader.c and snapshotter/src/linux/snapshot_dump.c. What is only
-- counted for the log is left out.
pub mod Chunks
pub mod Memory
pub mod Listing
pub mod Whole
pub mod Entries
pub mod File
pub mod Termination
pub mod I386
use process_bridge.Base.{
  ℕ, zero, suc, List, [], ◌∷◌, Option, some, none, Bool, true, false, ◌&&◌, ◌||◌, Run, pure,
  fatal_if, call, or_fatal, out_of_fuel, ltb, if◌then◌else◌, ◌==◌, not, ◌>>=◌, ◌>>◌, length,
  replicate, ◌+◌, ◌-◌, ◌%◌, ◌^◌,
}
use process_bridge.Common.MapsEntry.{MapsEntry, maps_entry_bytes}
use process_bridge.Common.X8664.{X8664Regs, x8664_regs_bytes}
use process_bridge.Snapshotter.Kernel.{Kernel}
use process_bridge.Snapshotter.Maps.{MapsIter, create_maps_iter, next}
use process_bridge.Base.Text.{same_text, c_string}

abbrev pub buffer_size : ℕ
buffer_size = 2 ^ 20

-- The mappings of the kernel: [vvar], [vsyscall] and [vvar_vclock].
unfoldable pub is_special : List ℕ → Bool
is_special path =
    same_text (c_string path) (91 ∷ 118 ∷ 118 ∷ 97 ∷ 114 ∷ 93 ∷ [])
    || same_text (c_string path) (91 ∷ 118 ∷ 115 ∷ 121 ∷ 115 ∷ 99 ∷ 97 ∷ 108 ∷ 108 ∷ 93 ∷ [])
    || same_text (c_string path)
        (91 ∷ 118 ∷ 118 ∷ 97 ∷ 114 ∷ 95 ∷ 118 ∷ 99 ∷ 108 ∷ 111 ∷ 99 ∷ 107 ∷ 93 ∷ [])

-- What stands in the buffer after a read of a chunk: zeros if it failed or was short.
unfoldable pub read_or_zeros : ℕ → Option (List ℕ) → List ℕ
read_or_zeros chunk none = replicate chunk 0
read_or_zeros chunk (some bytes) = if length bytes == chunk then bytes else replicate chunk 0

-- `entry->end - entry->start`, in 64 bits.
abbrev pub entry_size : MapsEntry → ℕ
entry_size e = (e.end + 2 ^ 64 - e.start) % 2 ^ 64

module _ (K : Kernel) where
  -- The first `chunk` bytes of the buffer.
  unfoldable pub chunk_bytes : ℕ → ℕ → ℕ → ℕ → Run K.World (List ℕ)
  chunk_bytes pid readable address chunk = if readable == 0 then pure (replicate chunk 0) else (do
    result ← call (K.process_vm_readv pid address chunk)
    pure (read_or_zeros chunk result))

  -- The `while` loop over the chunks of a mapping. `fuel` bounds its rounds.
  unfoldable pub dump_chunks : ℕ → ℕ → ℕ → ℕ → ℕ → ℕ → Run K.World (Unit {0})
  dump_chunks zero pid file readable address remaining = λ w. out_of_fuel
  dump_chunks (suc fuel) pid file readable address remaining = elim (remaining == 0) [
    | true ↦ pure tt
    | false ↦
        let chunk = if ltb buffer_size remaining then buffer_size else remaining in
        do
          bytes ← chunk_bytes pid readable address chunk
          written ← call (K.fwrite file bytes)
          fatal_if (not written)
          dump_chunks fuel pid file readable ((address + chunk) % 2 ^ 64) (remaining - chunk)
  ]

  unfoldable pub dump_entry : ℕ → ℕ → MapsEntry → Run K.World (Unit {0})
  dump_entry pid file e = if is_special e.path then pure tt else (do
    written ← call (K.fwrite file (maps_entry_bytes e))
    fatal_if (not written)
    dump_chunks (suc (entry_size e)) pid file e.read e.start (entry_size e))

  -- The `for` loop over the entries. `fuel` bounds its rounds.
  unfoldable pub dump_entries : ℕ → ℕ → ℕ → MapsIter → Run K.World (Unit {0})
  dump_entries zero pid file iter = λ w. out_of_fuel
  dump_entries (suc fuel) pid file iter = do
    entry ← next K iter
    elim entry [
      | none ↦ pure tt
      | some e ↦ do
        dump_entry pid file e
        dump_entries fuel pid file (record { file = iter.file; path = e.path })
    ]

  unfoldable pub dump_mappings_content : ℕ → ℕ → ℕ → Run K.World (Unit {0})
  dump_mappings_content fuel pid file = do
    iter ← create_maps_iter K pid
    allocated ← call (K.malloc buffer_size)
    fatal_if (not allocated)
    dump_entries fuel pid file iter
    flushed ← call (K.fflush file)
    fatal_if (not flushed)

  -- `dump_snapshot` of snapshot_dump.c, by the bytes of its `process_state_t`.
  unfoldable pub write_snapshot : ℕ → List ℕ → ℕ → List ℕ → Run K.World (Unit {0})
  write_snapshot fuel snapshot_bytes pid filename = do
    file ← or_fatal (K.fopen_wb filename)
    written ← call (K.fwrite file snapshot_bytes)
    fatal_if (not written)
    dump_mappings_content fuel pid file
    closed ← call (K.fclose file)
    fatal_if (not closed)

  -- `dump_snapshot` of the x86_64 build.
  unfoldable pub dump_snapshot : ℕ → X8664Regs → ℕ → List ℕ → Run K.World (Unit {0})
  dump_snapshot fuel snapshot = write_snapshot fuel (x8664_regs_bytes snapshot)
