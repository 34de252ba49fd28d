-- ===== src/Loader/Dump/Logged.antt =====
-- The log of loader/src/dump.c: for every mapping, `LOG_DEBUG` prints the path of its header with
-- `%s`, which reads on until a byte that is zero.
use process_bridge.Base.{
  true, false, ℕ, List, [], ◌∷◌, Bool, ltb, Run, ◌+◌, ◌-◌, out_of_fuel, zero, if◌then◌else◌, ◌≡◌,
  suc, fatal, pure, ◌>>=◌, ◌>>◌, ub, refl, not, ◌&&◌, ◌||◌, ◌==◌, call, length, ◌≢◌, IsDefined,
  subst, sym,
}
use process_bridge.Loader.Host.{Host}
use process_bridge.Loader.Dump.{mapping_size, load_mapping}
use process_bridge.Loader.Dump.Guarded.{slice, read_guarded, load_guarded}
use process_bridge.Loader.Dump.Bounds.{state_guarded, restore_guarded}
use process_bridge.Loader.Dump.Defined.{restore_guarded-IsDefined}
use process_bridge.Loader.Cpu.{dump_cpu_state}
use process_bridge.Common.MapsEntry.{MapsEntry, sizeof_maps_entry, maps_entry_of}
use process_bridge.Common.UserDesc.{DescLayout}

unfoldable pub has_zero : List ℕ → Bool
has_zero [] = false
has_zero (byte ∷ bytes) = byte == 0 || has_zero bytes

-- The `LOG_DEBUG` of a mapping: if messages of this level are written, a path without a zero is read
-- past its end, and the end of `entry_data`.
unfoldable pub path_logged : {W : Type 0} → Bool → MapsEntry → Run W (Unit {0})
path_logged debug e = if debug && not (has_zero e.path) then ub else pure tt

module _ (H : Host) (uc : ℕ) (debug : Bool) where
  -- The loop over the mappings with its log, and a test of each access to the file.
  unfoldable pub load_logged : ℕ → List ℕ → ℕ → ℕ → ℕ → Run H.World ℕ
  load_logged zero data_bytes file_size offset loaded = λ w. out_of_fuel
  load_logged (suc fuel) data_bytes file_size offset loaded = elim (ltb offset file_size) [
    | false ↦ pure loaded
    | true ↦ read_guarded data_bytes file_size offset sizeof_maps_entry λ (header, behind). do
      path_logged debug (maps_entry_of header)
      let size = mapping_size (maps_entry_of header)
      elim (ltb (file_size - behind) size) [
        | true ↦ fatal
        | false ↦ do
          content ← slice data_bytes behind size
          load_mapping H uc (maps_entry_of header) content
          load_logged fuel data_bytes file_size (behind + size) (loaded + 1)
      ]
  ]

  unfoldable pub restore_logged : DescLayout → List ℕ → ℕ → Run H.World ℕ
  restore_logged L data_bytes file_size = do
    arch ← call (H.uc_query_arch uc)
    mode ← call (H.uc_query_mode uc)
    state_guarded H uc L mode data_bytes file_size λ (variant, offset). do
      loaded ← load_logged (suc file_size) data_bytes file_size offset 0
      dump_cpu_state H L uc (record { arch = arch; mode = mode; variant = variant })

module _ (H : Host) (uc : ℕ) where
  load_logged-quiet :
      (fuel : ℕ) (data_bytes : List ℕ) (file_size offset loaded : ℕ)
      → load_logged H uc false fuel data_bytes file_size offset loaded
        ≡ load_guarded H uc fuel data_bytes file_size offset loaded
  unfolding load_logged load_guarded path_logged
  load_logged-quiet zero data_bytes file_size offset loaded = refl
  load_logged-quiet (suc fuel) data_bytes file_size offset loaded = λ i.
      elim (ltb offset file_size) [
        | false ↦ pure loaded
        | true ↦ read_guarded data_bytes file_size offset sizeof_maps_entry λ (header, behind).
            let size = mapping_size (maps_entry_of header) in
            elim (ltb (file_size - behind) size) [
              | true ↦ fatal
              | false ↦ do
                content ← slice data_bytes behind size
                load_mapping H uc (maps_entry_of header) content
                load_logged-quiet fuel data_bytes file_size (behind + size) (loaded + 1) i
            ]
      ]

  restore_logged-quiet :
      (L : DescLayout) (data_bytes : List ℕ) (file_size : ℕ)
      → restore_logged H uc false L data_bytes file_size
        ≡ restore_guarded H uc L data_bytes file_size
  unfolding restore_logged restore_guarded
  restore_logged-quiet L data_bytes file_size = λ i. do
    arch ← call (H.uc_query_arch uc)
    mode ← call (H.uc_query_mode uc)
    state_guarded H uc L mode data_bytes file_size λ (variant, offset). do
      loaded ← load_logged-quiet (suc file_size) data_bytes file_size offset 0 i
      dump_cpu_state H L uc (record { arch = arch; mode = mode; variant = variant })

  -- Where messages of the level DEBUG are not written, no file makes the loader leave what the C
  -- standard defines in an engine in 64-bit mode, where the codes of the two modes differ: whatever
  -- bytes the file has, the run in which each access to the file and to a logged path is tested does
  -- not come to one that is outside.
  pub restore_logged-IsDefined :
      (L : DescLayout) (data_bytes : List ℕ)
      → H.uc_mode_32 ≢ H.uc_mode_64
      → (w u v : H.World) (arch : ℕ) → H.uc_query_arch uc w ≡ (arch, u)
      → H.uc_query_mode uc u ≡ (H.uc_mode_64, v)
      → IsDefined (restore_logged H uc false L data_bytes (length data_bytes) w)
  restore_logged-IsDefined L data_bytes differ w u v arch qa qm =
      let same = restore_logged-quiet L data_bytes (length data_bytes) in
      subst (λ (run : Run H.World ℕ). IsDefined (run w)) (sym same)
        (restore_guarded-IsDefined H uc L data_bytes differ w u v arch qa qm)
