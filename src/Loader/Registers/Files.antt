-- ===== src/Loader/Registers/Files.antt =====
-- The registers after a snapshot is restored from the bytes of its file.
use process_bridge.Base.{
  zero, suc, ltb, Bool-cases, Option-cases, inl, inr, take, drop, ◌-◌, true, ◌==◌, if◌then◌else◌,
  arith, ℕ, List, ◌≡◌, All, returned, subst, ◌≢◌, >>-eq_returned, ◌++◌, length, some, sym, ◌∙◌,
}
use process_bridge.Loader.Host.{Host, Reg}
use process_bridge.Loader.Engine.{View, HasMemory}
use process_bridge.Loader.Registers.{HasRegisters, AreFitting}
use process_bridge.Common.UserDesc.{DescLayout, IsLawful}
use process_bridge.Loader.Engine.Ring3.{HasRing3, IsUserFrame}
use process_bridge.Loader.Dump.Sections.{load_sections}
use process_bridge.Common.X8664.{X8664Regs, IsX8664Regs, x8664_regs_bytes}
use process_bridge.Common.I386State.{
  sizeof_i386_state, length-i386_state_bytes, i386_state_of-i386_state_bytes, I386State,
  IsI386State, i386_state_bytes,
}
use process_bridge.Common.Snapshot.{Section, IsSection, sections_bytes}
use process_bridge.Loader.Cpu.{dump_cpu_state}
use process_bridge.Common.MapsEntry.{MapsEntry, sizeof_maps_entry, maps_entry_of}
use process_bridge.Loader.Dump.{
  load_mappings, read_bytes, read_state, mapping_size, restore_from, load_mapping,
}
use process_bridge.Loader.Engine.Memory.{load_mapping_calls}
use process_bridge.Loader.Registers.Restored32.{dump_i386_cpu_state-saved32}
use process_bridge.Loader.Registers.Saved32.{saved32}
use process_bridge.Loader.Registers.Restored.{saved, dump_x86_64_cpu_state-saved}
use process_bridge.Loader.Dump.Restore.{read_front-append, restore_from-x8664}
use process_bridge.Loader.I386.{general_writes, segment_writes}
use process_bridge.Loader.X8664.{reg_writes}

module _ (H : Host) (V : View H) (registers : HasRegisters H V) (uc : ℕ) (L : DescLayout) where
  -- After a file of x86_64 registers and sections.
  pub restore_from-saved :
      (s : X8664Regs) (ss : List Section)
      → IsX8664Regs s
      → AreFitting (reg_writes s)
      → All IsSection ss
      → H.uc_mode_32 ≢ H.uc_mode_64
      → (w u v w' : H.World) (arch entry : ℕ) → H.uc_query_arch uc w ≡ (arch, u)
      → H.uc_query_mode uc u ≡ (H.uc_mode_64, v)
      → restore_from H L uc
          (x8664_regs_bytes s ++ sections_bytes ss)
          (length (x8664_regs_bytes s ++ sections_bytes ss))
          w
        ≡ returned entry w'
      → (q : Reg) (value : ℕ) → saved s q ≡ some value
      → (entry ≡ s.rip) × (V.reg uc q w' ≡ value)
  restore_from-saved s ss fits suit good differ w u v w' arch entry qa qm h q value has =
      let plan = restore_from-x8664 H L uc s ss fits good differ w u v arch qa qm in
      let (_, t, sections, cpu) = >>-eq_returned (load_sections H uc ss v) _ (sym plan ∙ h) in
      dump_x86_64_cpu_state-saved H V registers uc s t w' entry suit cpu q value has

module _ (H : Host) (V : View H) (memory : HasMemory H V) (registers : HasRegisters H V)
    (ring0 : ℕ → H.World → Type 0) (ring3 : HasRing3 H V ring0) (uc : ℕ) where
  load_mapping_ring :
      (e : MapsEntry) (content : List ℕ) (w w' : H.World)
      → load_mapping H uc e content w ≡ returned tt w'
      → ring0 uc w
      → ring0 uc w'
  load_mapping_ring e content w w' h ring =
      let (u, v, mapped, written, protected) = load_mapping_calls H V memory uc e content w w' h in
      let at_u = (ring3.map_regs uc _ _ _ w u mapped).ring_kept ring in
      let at_v = (ring3.write_mem_regs uc _ _ u v written).ring_kept at_u in
      (ring3.protect_regs uc _ _ _ v w' protected).ring_kept at_v

  load_mappings_ring :
      (fuel : ℕ) (data_bytes : List ℕ) (file_size offset loaded count : ℕ) (w w' : H.World)
      → load_mappings H fuel uc data_bytes file_size offset loaded w ≡ returned count w'
      → ring0 uc w
      → ring0 uc w'
  unfolding load_mappings
  load_mappings_ring zero data_bytes file_size offset loaded count w w' h ring = cc
  load_mappings_ring (suc fuel) data_bytes file_size offset loaded count w w' h ring =
      elim (Bool-cases (ltb offset file_size)) [
        | inr done ↦
            let g = rw (load_mappings, done) at h in
            let same : w ≡ w' = cc in subst (ring0 uc) same ring
        | inl more ↦
            elim (Option-cases (read_bytes data_bytes file_size offset sizeof_maps_entry)) [
              | inl short ↦ cc (rw (load_mappings, more, short) at h)
              | inr ((header, behind), read) ↦
                  let e = maps_entry_of header in
                  let size = mapping_size e in
                  let content = take size (drop behind data_bytes) in
                  elim (Bool-cases (ltb (file_size - behind) size)) [
                    | inl long ↦ cc (rw (load_mappings, more, read, long) at h)
                    | inr fits ↦
                        let g = rw (load_mappings, more, read, fits) at h in
                        let (_, z, first, rest) =
                          >>-eq_returned (load_mapping H uc e content w) _ g in
                        load_mappings_ring fuel data_bytes file_size _ _ count z w' rest
                          (load_mapping_ring e content w z first ring)
                  ]
            ]
      ]

  -- After a file of an i386 state, whatever follows it.
  pub restore_from-saved32 :
      (L : DescLayout)
      → IsLawful L
      → (s : I386State) (back : List ℕ) → IsI386State s
      → IsUserFrame s.regs
      → AreFitting (general_writes s.regs)
      → AreFitting (segment_writes s.regs)
      → (w u v w' : H.World) (arch entry : ℕ) → H.uc_query_arch uc w ≡ (arch, u)
      → H.uc_query_mode uc u ≡ (H.uc_mode_32, v)
      → ring0 uc v
      → restore_from H L uc (i386_state_bytes L s ++ back) (length (i386_state_bytes L s ++ back)) w
        ≡ returned entry w'
      → (q : Reg) (value : ℕ) → saved32 s.regs q ≡ some value
      → (entry ≡ s.regs.eip) × (V.reg uc q w' ≡ value)
  unfolding restore_from read_state dump_cpu_state
  restore_from-saved32 L lawful s back fits user general segments w u v w' arch entry qa qm ring h q
        value has =
      let front = i386_state_bytes L s in
      let is_32 : (H.uc_mode_32 == H.uc_mode_32) ≡ true = ground arith in
      let front_size = length-i386_state_bytes L lawful s fits in
      let h1 = rw (qa, qm, if◌then◌else◌, is_32) at h in
      let h2 = rw (read_front-append front back (sizeof_i386_state L) front_size) at h1 in
      let h3 = rw (i386_state_of-i386_state_bytes L lawful s fits) at h2 in
      let (count, t, loaded, cpu) =
        >>-eq_returned
          (load_mappings H (suc (length (front ++ back))) uc (front ++ back)
            (length (front ++ back)) (sizeof_i386_state L) 0 v)
          _ h3 in
      let at_t =
        load_mappings_ring (suc (length (front ++ back))) (front ++ back) (length (front ++ back))
          (sizeof_i386_state L) 0 count v t loaded ring in
      dump_i386_cpu_state-saved32 H V memory registers ring0 ring3 uc s t w' entry at_t user general
        segments cpu q value has
