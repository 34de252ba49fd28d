-- ===== src/Loader/Dump.antt =====
-- loader/src/dump.c: the snapshot file is read and restored.
pub mod Sections
pub mod Restore
pub mod Termination
pub mod Guarded
pub mod Bounds
pub mod Defined
pub mod Logged
use process_bridge.Base.{
  ℕ, zero, suc, ◌+◌, ◌-◌, ◌%◌, ◌^◌, ◌==◌, bit_or, List, Option, none, some, true, false, Run,
  if◌then◌else◌, out_of_fuel, ltb, exited, ◌||◌, returned, pure, fatal, take, drop, ◌>>=◌, ◌>>◌,
  or_fatal, call, fatal_if, effect,
}
use process_bridge.Common.MapsEntry.{MapsEntry, maps_entry_of, sizeof_maps_entry}
use process_bridge.Common.I386State.{sizeof_i386_state}
use process_bridge.Common.UserDesc.{DescLayout}
use process_bridge.Loader.Host.{Host}
use process_bridge.Loader.Cpu.{dump_cpu_state}
use process_bridge.Common.X8664.{sizeof_x8664_regs}
use process_bridge.Loader.Check.{pb_uc_check}

-- The `size` bytes at `offset`, and the offset behind them; `none` is the return of -1.
unfoldable pub read_bytes : List ℕ → ℕ → ℕ → ℕ → Option (List ℕ × ℕ)
read_bytes data_bytes file_size offset size =
    if ltb file_size offset || ltb (file_size - offset) size
    then none
    else some (take size (drop offset data_bytes), offset + size)

-- `entry_data.end - entry_data.start`, in 64 bits.
unfoldable pub mapping_size : MapsEntry → ℕ
mapping_size e = (e.end + 2 ^ 64 - e.start) % 2 ^ 64

module _ (H : Host) where
  -- `perms`, from the bytes that say what the mapping allows.
  unfoldable pub entry_perms : MapsEntry → ℕ
  entry_perms e =
      let allow : ℕ → ℕ → ℕ → ℕ =
        λ flag prot perms. if flag == 0 then perms else bit_or perms prot in
      allow e.exec H.uc_prot_exec (allow e.write H.uc_prot_write (allow e.read H.uc_prot_read 0))

  -- One mapping is mapped for writing, filled, and given its own permissions.
  unfoldable pub load_mapping : ℕ → MapsEntry → List ℕ → Run H.World (Unit {0})
  load_mapping uc e content = do
    pb_uc_check (H.uc_mem_map uc e.start (mapping_size e) H.uc_prot_write)
    pb_uc_check (H.uc_mem_write uc e.start content)
    pb_uc_check (H.uc_mem_protect uc e.start (mapping_size e) (entry_perms e))

  -- The `while` loop over the mappings, from an offset on. `fuel` bounds its rounds.
  unfoldable pub load_mappings : ℕ → ℕ → List ℕ → ℕ → ℕ → ℕ → Run H.World ℕ
  load_mappings zero uc data_bytes file_size offset loaded = λ w. out_of_fuel
  load_mappings (suc fuel) uc data_bytes file_size offset loaded = elim (ltb offset file_size) [
    | false ↦ pure loaded
    | true ↦ elim (read_bytes data_bytes file_size offset sizeof_maps_entry) [
      | none ↦ fatal
      | some (header, content_offset) ↦
          let e = maps_entry_of header in
          let size = mapping_size e in
          elim (ltb (file_size - content_offset) size) [
            | true ↦ fatal
            | false ↦ do
              load_mapping uc e (take size (drop content_offset data_bytes))
              load_mappings fuel uc data_bytes file_size (content_offset + size) (loaded + 1)
          ]
    ]
  ]

-- The `read_bytes` of a process state at the front of the file.
unfoldable pub read_front : {W : Type 0} → List ℕ → ℕ → ℕ → Run W (List ℕ × ℕ)
read_front data_bytes file_size size = elim (read_bytes data_bytes file_size 0 size) [
  | none ↦ fatal
  | some r ↦ pure r
]

module _ (H : Host) (L : DescLayout) where
  -- The process state at the front of the file, by the mode of the engine.
  unfoldable pub read_state : ℕ → List ℕ → ℕ → Run H.World (List ℕ × ℕ)
  read_state mode data_bytes file_size =
      if mode == H.uc_mode_32
      then read_front data_bytes file_size (sizeof_i386_state L)
      else (if mode == H.uc_mode_64
          then read_front data_bytes file_size sizeof_x8664_regs
          else fatal)

  -- What follows once the file is mapped into memory. The number of mappings is only logged.
  unfoldable pub restore_from : ℕ → List ℕ → ℕ → Run H.World ℕ
  restore_from uc data_bytes file_size = do
    arch ← call (H.uc_query_arch uc)
    mode ← call (H.uc_query_mode uc)
    (variant, offset) ← read_state mode data_bytes file_size
    loaded ← load_mappings H (suc file_size) uc data_bytes file_size offset 0
    dump_cpu_state H L uc (record { arch = arch; mode = mode; variant = variant })

  unfoldable pub dump_snapshot : ℕ → List ℕ → Run H.World ℕ
  dump_snapshot uc snapshot_path = do
    fd ← or_fatal (H.open_file snapshot_path)
    file_size ← or_fatal (H.fstat_size fd)
    fatal_if (file_size == 0)
    mapping ← or_fatal (H.mmap fd file_size)
    effect (H.close fd)
    entry ← restore_from uc mapping.bytes file_size
    effect (H.munmap mapping file_size)
    pure entry
