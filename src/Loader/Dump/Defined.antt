-- ===== src/Loader/Dump/Defined.antt =====
-- What the bytes of a file can make of the loader of loader/src/dump.c on x86_64.
use process_bridge.Loader.X8664
use process_bridge.Base.{
  true, false, zero, suc, [], ◌∷◌, List, ℕ, IsDefined, Bool, defining, Run, Bool-cases,
  Option-cases, returned-IsDefined, ltb, ◌==◌, if◌then◌else◌, and_then-IsDefined, inr, inl, ◌≢◌,
  exited-IsDefined, ◌≡◌, length, ◌-◌, arith, ◌+◌, subst,
}
use process_bridge.Loader.Dump.{
  read_front, restore_from, load_mapping, load_mappings, read_state, read_bytes, mapping_size,
}
use process_bridge.Loader.Host.{Host, Reg}
use process_bridge.Loader.Check.{pb_uc_check_value, pb_uc_check-IsDefined, pb_uc_check}
use process_bridge.Loader.Writes.{write_regs}
use process_bridge.Common.X8664.{X8664Regs, sizeof_x8664_regs}
use process_bridge.Common.MapsEntry.{MapsEntry, sizeof_maps_entry, maps_entry_of}
use process_bridge.Loader.Cpu.{dump_cpu_state}
use process_bridge.Common.UserDesc.{DescLayout}
use process_bridge.Loader.Dump.Bounds.{restore_guarded, restore_from-restore_guarded}

module _ {W : Type 0} where
  read_front-IsDefined :
      (data_bytes : List ℕ) (file_size size : ℕ) (w : W)
      → IsDefined (read_front data_bytes file_size size w)
  unfolding read_front
  read_front-IsDefined data_bytes file_size size w =
      elim (Option-cases (read_bytes data_bytes file_size 0 size)) [
        | inl short ↦ rw (read_front, short) (exited-IsDefined 1 w)
        | inr (r, read) ↦ rw (read_front, read) (returned-IsDefined r w)
      ]

  value-IsDefined : (f : W → (ℕ × ℕ) × W) (w : W) → IsDefined (pb_uc_check_value f w)
  unfolding pb_uc_check_value
  value-IsDefined f w = elim (Bool-cases ((f w).0.0 == 0)) [
    | inl ok ↦ rw ok (returned-IsDefined (f w).0.1 (f w).1)
    | inr failed ↦ rw failed (exited-IsDefined 1 (f w).1)
  ]

module _ (H : Host) (uc : ℕ) where
  load_mapping-IsDefined :
      (e : MapsEntry) (content : List ℕ) (w : H.World) → IsDefined (load_mapping H uc e content w)
  unfolding load_mapping
  load_mapping-IsDefined e content w = search (defining, pb_uc_check-IsDefined)

  load_mappings-IsDefined :
      (fuel : ℕ) (data_bytes : List ℕ) (file_size offset loaded : ℕ) (w : H.World)
      → IsDefined (load_mappings H fuel uc data_bytes file_size offset loaded w)
  unfolding load_mappings
  load_mappings-IsDefined zero data_bytes file_size offset loaded w = record { defined = λ e. cc }
  load_mappings-IsDefined (suc fuel) data_bytes file_size offset loaded w =
      elim (Bool-cases (ltb offset file_size)) [
        | inr done ↦ rw (load_mappings, done) (returned-IsDefined loaded w)
        | inl more ↦
            elim (Option-cases (read_bytes data_bytes file_size offset sizeof_maps_entry)) [
              | inl short ↦ rw (load_mappings, more, short) (exited-IsDefined 1 w)
              | inr ((header, behind), read) ↦
                  let size = mapping_size (maps_entry_of header) in
                  elim (Bool-cases (ltb (file_size - behind) size)) [
                    | inl long ↦ rw (load_mappings, more, read, long) (exited-IsDefined 1 w)
                    | inr fits ↦
                        rw (load_mappings, more, read, fits)
                          (and_then-IsDefined (load_mapping H uc _ _ w) _
                            (load_mapping-IsDefined _ _ w)
                            λ _ w'.
                              load_mappings-IsDefined fuel data_bytes file_size (behind + size)
                                (loaded + 1) w')
                  ]
            ]
      ]

  write_regs-IsDefined :
      (writes : List (Reg × ℕ)) (w : H.World) → IsDefined (write_regs H uc writes w)
  unfolding write_regs
  write_regs-IsDefined [] w = returned-IsDefined tt w
  write_regs-IsDefined ((r, v) ∷ writes) w =
      and_then-IsDefined (pb_uc_check (H.uc_reg_write uc r v) w) _ (pb_uc_check-IsDefined _ w)
        λ _ u. write_regs-IsDefined writes u

  if-IsDefined :
      {A : Type 0} (b : Bool) (m n : Run H.World A) (w : H.World)
      → IsDefined (m w)
      → IsDefined (n w)
      → IsDefined ((if b then m else n) w)
  if-IsDefined true m n w h k = h
  if-IsDefined false m n w h k = k

  x8664-IsDefined : (s : X8664Regs) (w : H.World) → IsDefined (X8664.dump_x86_64_cpu_state H uc s w)
  unfolding X8664.dump_x86_64_cpu_state X8664.dump_gdt X8664.dump_regs
  x8664-IsDefined s w =
      search (defining, if-IsDefined, write_regs-IsDefined, pb_uc_check-IsDefined, value-IsDefined)
        depth 20

  -- No file leads to an access outside of it, in an engine in 64-bit mode.
  pub restore_guarded-IsDefined :
      (L : DescLayout) (data_bytes : List ℕ)
      → H.uc_mode_32 ≢ H.uc_mode_64
      → (w u v : H.World) (arch : ℕ) → H.uc_query_arch uc w ≡ (arch, u)
      → H.uc_query_mode uc u ≡ (H.uc_mode_64, v)
      → IsDefined (restore_guarded H uc L data_bytes (length data_bytes) w)
  unfolding restore_from read_state dump_cpu_state
  restore_guarded-IsDefined L data_bytes differ w u v arch qa qm =
      let not_32 : (H.uc_mode_64 == H.uc_mode_32) ≡ false = ground (arith, differ) in
      let is_64 : (H.uc_mode_64 == H.uc_mode_64) ≡ true = ground arith in
      subst IsDefined (restore_from-restore_guarded H uc L data_bytes w) (
        rw (qa, qm, if◌then◌else◌, not_32, is_64)
          (and_then-IsDefined (read_front data_bytes (length data_bytes) sizeof_x8664_regs v) _
            (read_front-IsDefined data_bytes (length data_bytes) sizeof_x8664_regs v)
            λ r t.
              and_then-IsDefined (load_mappings H _ uc data_bytes (length data_bytes) r.1 0 t) _
                (load_mappings-IsDefined _ data_bytes (length data_bytes) r.1 0 t)
                λ _ z. x8664-IsDefined _ z))
