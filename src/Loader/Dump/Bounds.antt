-- ===== src/Loader/Dump/Bounds.antt =====
-- The loader of loader/src/dump.c stays inside of the file.
use process_bridge.Base.{
  ◌≡◌, Bool-cases, inl, inr, List, ℕ, Run, if◌then◌else◌, ltb, suc, ◌+◌, length, ◌-◌, fatal, take,
  ◌>>=◌, drop, ap, Option-cases, refl, zero, and_then, fun_ext, call, ◌==◌, ◌∙◌,
}
use process_bridge.Loader.Host.{Host}
use process_bridge.Common.MapsEntry.{sizeof_maps_entry, maps_entry_of}
use process_bridge.Loader.Dump.{
  read_bytes, load_mappings, mapping_size, load_mapping, read_state, restore_from, read_front,
}
use process_bridge.Loader.Dump.Termination.{read_bytes_bounds}
use process_bridge.Common.UserDesc.{DescLayout}
use process_bridge.Loader.Cpu.{dump_cpu_state}
use process_bridge.Common.I386State.{sizeof_i386_state}
use process_bridge.Common.X8664.{sizeof_x8664_regs}
use process_bridge.Loader.Dump.Guarded.{
  load_guarded, read_guarded, read_guarded-none, within, read_guarded-some, slice_inside,
}

module _ (H : Host) (uc : ℕ) where
  load_mappings-guarded :
      (fuel : ℕ) (data_bytes : List ℕ) (offset loaded : ℕ) (w : H.World)
      → load_mappings H fuel uc data_bytes (length data_bytes) offset loaded w
        ≡ load_guarded H uc fuel data_bytes (length data_bytes) offset loaded w
  unfolding load_mappings load_guarded
  load_mappings-guarded zero data_bytes offset loaded w = refl
  load_mappings-guarded (suc fuel) data_bytes offset loaded w =
      let file_size = length data_bytes in
      elim (Bool-cases (ltb offset file_size)) [
        | inr done ↦ rw (load_mappings, load_guarded, done) refl
        | inl more ↦
            elim (Option-cases (read_bytes data_bytes file_size offset sizeof_maps_entry)) [
              | inl short ↦
                  rw
                    (
                      load_mappings,
                      load_guarded,
                      more,
                      short,
                      read_guarded-none data_bytes offset sizeof_maps_entry _ w short,
                    )
                    refl
              | inr ((header, behind), read) ↦
                  let size = mapping_size (maps_entry_of header) in
                  let bounds = read_bytes_bounds data_bytes file_size offset _ header behind read in
                  elim (Bool-cases (ltb (file_size - behind) size)) [
                    | inl long ↦
                        rw
                          (
                            load_mappings,
                            load_guarded,
                            more,
                            read,
                            read_guarded-some data_bytes offset sizeof_maps_entry header behind _ w
                                read,
                            long,
                          )
                          refl
                    | inr fits ↦
                        rw
                          (
                            load_mappings,
                            load_guarded,
                            more,
                            read,
                            read_guarded-some data_bytes offset sizeof_maps_entry header behind _ w
                                read,
                            fits,
                            slice_inside data_bytes behind size w
                                (within file_size behind size fits bounds.1),
                          )
                          (ap
                            (and_then (
                              load_mapping H uc (maps_entry_of header)
                                (take size (drop behind data_bytes)) w))
                            (fun_ext λ _. fun_ext λ w'.
                              load_mappings-guarded fuel data_bytes (behind + size) (loaded + 1)
                                w'))
                  ]
            ]
      ]

  -- `read_state` and `restore_from`, with the same tests of their accesses.
  unfoldable pub state_guarded :
      DescLayout → ℕ → List ℕ → ℕ → (List ℕ × ℕ → Run H.World ℕ) → Run H.World ℕ
  state_guarded L mode data_bytes file_size k =
      if mode == H.uc_mode_32
      then read_guarded data_bytes file_size 0 (sizeof_i386_state L) k
      else (if mode == H.uc_mode_64
          then read_guarded data_bytes file_size 0 sizeof_x8664_regs k
          else fatal)

  unfoldable pub restore_guarded : DescLayout → List ℕ → ℕ → Run H.World ℕ
  restore_guarded L data_bytes file_size = do
    arch ← call (H.uc_query_arch uc)
    mode ← call (H.uc_query_mode uc)
    state_guarded L mode data_bytes file_size λ (variant, offset). do
      loaded ← load_guarded H uc (suc file_size) data_bytes file_size offset 0
      dump_cpu_state H L uc (record { arch = arch; mode = mode; variant = variant })

  read_front-guarded :
      (data_bytes : List ℕ) (size : ℕ) (k : List ℕ × ℕ → Run H.World ℕ) (w : H.World)
      → and_then (read_front data_bytes (length data_bytes) size w) k
        ≡ read_guarded data_bytes (length data_bytes) 0 size k w
  unfolding read_front
  read_front-guarded data_bytes size k w =
      elim (Option-cases (read_bytes data_bytes (length data_bytes) 0 size)) [
        | inl short ↦ rw (read_front, short, read_guarded-none data_bytes 0 size k w short) refl
        | inr ((bytes, behind), read) ↦
            rw (read_front, read, read_guarded-some data_bytes 0 size bytes behind k w read) refl
      ]

  state_guarded_lem :
      (L : DescLayout) (mode : ℕ) (data_bytes : List ℕ) (k : List ℕ × ℕ → Run H.World ℕ)
      (w : H.World)
      → and_then (read_state H L mode data_bytes (length data_bytes) w) k
        ≡ state_guarded L mode data_bytes (length data_bytes) k w
  unfolding read_state state_guarded
  state_guarded_lem L mode data_bytes k w = elim (Bool-cases (mode == H.uc_mode_32)) [
    | inl is_32 ↦
        rw (if◌then◌else◌, is_32) (read_front-guarded data_bytes (sizeof_i386_state L) k w)
    | inr other ↦ elim (Bool-cases (mode == H.uc_mode_64)) [
      | inl is_64 ↦
          rw (if◌then◌else◌, other, is_64) (read_front-guarded data_bytes sizeof_x8664_regs k w)
      | inr unknown ↦ rw (if◌then◌else◌, other, unknown) refl
    ]
  ]

  -- The loader reads no byte outside of the file, whatever bytes the file has, in either mode and
  -- with any engine: its run is the run of the same code in which each access to the file is
  -- tested, and one outside of it is undefined behaviour. So the tests of the source are enough.
  pub restore_from-restore_guarded :
      (L : DescLayout) (data_bytes : List ℕ) (w : H.World)
      → restore_from H L uc data_bytes (length data_bytes) w
        ≡ restore_guarded L data_bytes (length data_bytes) w
  unfolding restore_from restore_guarded
  restore_from-restore_guarded L data_bytes w =
      let (arch, u) = H.uc_query_arch uc w in
      let (mode, v) = H.uc_query_mode uc u in
      let cpu : List ℕ → Run H.World ℕ =
        λ variant. dump_cpu_state H L uc (record { arch = arch; mode = mode; variant = variant }) in
      ap (and_then (read_state H L mode data_bytes (length data_bytes) v)) (
        fun_ext λ r. fun_ext λ t.
          ap (λ o. and_then o (λ _. cpu r.0))
            (load_mappings-guarded (suc (length data_bytes)) data_bytes r.1 0 t))
      ∙ state_guarded_lem L mode data_bytes _ v
