-- ===== src/Loader/Engine/Cpu32.antt =====
-- Restoring the i386 CPU state, its trampoline included, leaves what was mapped before as it was.
use process_bridge.Loader.I386
use process_bridge.Loader.Host.{Host, esp, eip}
use process_bridge.Loader.Engine.{View, HasMemory, inside, KeepsAt}
use process_bridge.Base.{
  ℕ, List, ◌≡◌, ◌∷◌, returned, [], some, false, length, All, ◌∙◌, if◌then◌else◌, Bool-cases, arith,
  inl, inr, ◌++◌, get_elem?, ◌<◌, >>-eq_returned, sym,
}
use process_bridge.Loader.Engine.Ring3.{HasRing3}
use process_bridge.Common.I386State.{I386State, IsI386State, i386_state_bytes}
use process_bridge.Common.UserDesc.{DescLayout, IsLawful}
use process_bridge.Loader.I386.{
  pb_trampoline_addr, frame_addr, pb_trampoline_size, iret_frame, general_writes, segment_writes,
}
use process_bridge.Common.Snapshot.{Section, IsSection, sections_bytes}
use process_bridge.Loader.Gdt.{pb_gdt_addr, pb_gdt_size}
use process_bridge.Base.Bytes.{words_bytes, length-words_bytes}
use process_bridge.Loader.I386.Calls.{dump_i386_cpu_state_steps, dump_gdt_calls, enter_ring3_calls}
use process_bridge.Loader.Dump.{restore_from}
use process_bridge.Loader.Engine.Keeps.{KeepsAt-trans, write_regs-KeepsFrom}
use process_bridge.Loader.Engine.Memory.{HoldsAt, load_sections-HoldsAt}
use process_bridge.Loader.Dump.Restore.{restore_from-i386}
use process_bridge.Loader.Dump.Sections.{load_sections}

module _ (H : Host) (V : View H) (memory : HasMemory H V) (ring0 : ℕ → H.World → Type 0)
    (ring3 : HasRing3 H V ring0) (uc : ℕ) where
  -- At an address outside of the table and of the trampoline, three calls of a range keep all.
  range_keeps :
      (start size prot x : ℕ) (bytes : List ℕ) (w u v : H.World)
      → H.uc_mem_map uc start size prot w ≡ (0, u)
      → H.uc_mem_write uc start bytes u ≡ (0, v)
      → inside start size x ≡ false
      → inside start (length bytes) x ≡ false
      → KeepsAt H V uc x w v
  range_keeps start size prot x bytes w u v mapped written outer outer_bytes = record {
    byte_kept =
        memory.write_byte uc start bytes x u v written
        ∙ rw (if◌then◌else◌, outer_bytes) (memory.map_byte uc start size prot x w u mapped outer);
    perms_kept =
        memory.write_perms uc start bytes x u v written
        ∙ memory.map_perms uc start size prot x w u mapped
        ∙ rw (if◌then◌else◌, outer);
  }

  i386_gdt_keeps :
      (s : I386State) (w w' : H.World) (x : ℕ)
      → I386.dump_gdt H uc s w ≡ returned 0 w'
      → inside pb_gdt_addr pb_gdt_size x ≡ false
      → KeepsAt H V uc x w w'
  i386_gdt_keeps s w w' x h outer =
      let (gdt, mmr, t, u, v, _, size, mapped, written, protected, loaded) =
        dump_gdt_calls H uc s w w' 0 h in
      let outer_bytes : inside pb_gdt_addr (length (words_bytes 8 gdt)) x ≡ false =
        rw (size) outer in
      let range =
        range_keeps pb_gdt_addr pb_gdt_size _ x (words_bytes 8 gdt) w t u mapped written outer
          outer_bytes in
      let protect : KeepsAt H V uc x u v = record {
        byte_kept = memory.protect_byte uc _ _ _ x u v protected;
        perms_kept = memory.protect_perms uc _ _ _ x u v protected ∙ rw (if◌then◌else◌, outer);
      } in
      KeepsAt-trans H V uc x w u w' range
        (KeepsAt-trans H V uc x u v w' protect (memory.gdtr_keeps uc mmr x v w' loaded))

  -- The byte of the `iret` is still there when the trampoline is run.
  pub stub_there :
      (s : I386State) (t u v x : H.World)
      → H.uc_mem_write uc pb_trampoline_addr (0xCF ∷ []) t ≡ (0, u)
      → H.uc_mem_write uc frame_addr (words_bytes 4 (iret_frame s.regs)) u ≡ (0, v)
      → H.uc_reg_write uc esp frame_addr v ≡ (0, x)
      → V.byte uc pb_trampoline_addr x ≡ 0xCF
  stub_there s t u v x stub frame stack =
      (memory.reg_keeps uc esp frame_addr pb_trampoline_addr v x stack).byte_kept
      ∙ memory.write_byte uc _ _ pb_trampoline_addr u v frame
      ∙ memory.write_byte uc _ _ pb_trampoline_addr t u stub

  enter_ring3_keeps :
      (s : I386State) (w w' : H.World) (x : ℕ)
      → I386.enter_ring3 H uc s w ≡ returned 0 w'
      → inside pb_gdt_addr pb_gdt_size x ≡ false
      → inside pb_trampoline_addr pb_trampoline_size x ≡ false
      → KeepsAt H V uc x w w'
  enter_ring3_keeps s w w' x h table outer =
      let (t, u, v, z, y, _, mapped, stub, frame, stack, ran, unmapped) =
        enter_ring3_calls H uc s w w' 0 h in
      let outer_stub : inside pb_trampoline_addr 1 x ≡ false = ground arith in
      let outer_frame : inside frame_addr (length (words_bytes 4 (iret_frame s.regs))) x ≡ false =
        rw (length-words_bytes) (ground arith) in
      let range =
        range_keeps pb_trampoline_addr pb_trampoline_size _ x (0xCF ∷ []) w t u mapped stub outer
          outer_stub in
      let framed : KeepsAt H V uc x u v = record {
        byte_kept = memory.write_byte uc _ _ x u v frame ∙ rw (if◌then◌else◌, outer_frame);
        perms_kept = memory.write_perms uc _ _ x u v frame;
      } in
      let stacked = memory.reg_keeps uc esp frame_addr x v z stack in
      let returns = ring3.iret_keeps uc _ x z y ran (stub_there s t u v z stub frame stack) table in
      let unmaps = ring3.unmap_keeps uc _ _ x y w' unmapped outer in
      KeepsAt-trans H V uc x w u w' range (
        KeepsAt-trans H V uc x u v w' framed
          (KeepsAt-trans H V uc x v z w' stacked (KeepsAt-trans H V uc x z y w' returns unmaps)))

  -- Both the table and the trampoline are mapped, so their addresses were free.
  i386_mapped_keeps :
      (s : I386State) (w w' : H.World) (entry x prot : ℕ)
      → I386.dump_i386_cpu_state H uc s w ≡ returned entry w'
      → V.perms uc x w ≡ some prot
      → KeepsAt H V uc x w w'
  i386_mapped_keeps s w w' entry x prot h there =
      let (t, u, v, z, table, general, entered, segments, read) =
        dump_i386_cpu_state_steps H uc s w w' entry h in
      let (_, _, g, _, _, _, _, gdt_mapped, _, _, _) = dump_gdt_calls H uc s w t 0 table in
      let outer_gdt : inside pb_gdt_addr pb_gdt_size x ≡ false =
        elim (Bool-cases (inside pb_gdt_addr pb_gdt_size x)) [
          | inl inner ↦ cc (memory.map_free uc _ _ _ x w g gdt_mapped inner)
          | inr outer ↦ outer
        ] in
      let one = i386_gdt_keeps s w t x table outer_gdt in
      let two =
        (write_regs-KeepsFrom H V memory uc x (general_writes s.regs) t).kept tt u general in
      let to_ring3 = KeepsAt-trans H V uc x w t u one two in
      let (a, _, _, _, _, _, stub_mapped, _, _, _, _, _) = enter_ring3_calls H uc s u v 0 entered in
      let outer : inside pb_trampoline_addr pb_trampoline_size x ≡ false =
        elim (Bool-cases (inside pb_trampoline_addr pb_trampoline_size x)) [
          | inl inner ↦
              cc (memory.map_free uc _ _ _ x u a stub_mapped inner, to_ring3.perms_kept ∙ there)
          | inr outer ↦ outer
        ] in
      let three = enter_ring3_keeps s u v x entered outer_gdt outer in
      let four =
        (write_regs-KeepsFrom H V memory uc x (segment_writes s.regs) v).kept tt z segments in
      let five = memory.read_keeps uc eip entry x z w' read in
      KeepsAt-trans H V uc x w u w' to_ring3
        (KeepsAt-trans H V uc x u v w' three (KeepsAt-trans H V uc x v z w' four five))

  -- Where the restore of a file of a well-formed i386 state and sections returns, in an engine in
  -- 32-bit mode that keeps the laws of its memory and of an `iret` to ring 3, with a layout of
  -- descriptors that copies them by their bytes, each address of each section holds the byte and the
  -- permissions that the snapshot has for it, the trampoline notwithstanding.
  pub restore_from-i386_HoldsAt :
      (L : DescLayout)
      → IsLawful L
      → (s : I386State) (ss : List Section) → IsI386State s
      → All IsSection ss
      → (w u v w' : H.World) (arch entry : ℕ) → H.uc_query_arch uc w ≡ (arch, u)
      → H.uc_query_mode uc u ≡ (H.uc_mode_32, v)
      → restore_from H L uc
          (i386_state_bytes L s ++ sections_bytes ss)
          (length (i386_state_bytes L s ++ sections_bytes ss))
          w
        ≡ returned entry w'
      → (i k : ℕ) (section : Section) → get_elem? ss i ≡ some section
      → k < length section.content
      → HoldsAt H V uc section k w'
  restore_from-i386_HoldsAt L lawful s ss fits good w u v w' arch entry qa qm h i k section at lt =
      let plan = restore_from-i386 H L uc s ss lawful fits good w u v arch qa qm in
      let (_, t, sections, cpu) = >>-eq_returned (load_sections H uc ss v) _ (sym plan ∙ h) in
      let held = load_sections-HoldsAt H V memory uc ss v t i k section good sections at lt in
      let kept = i386_mapped_keeps s t w' entry _ _ cpu held.perms_there in
      record {
        byte_there = kept.byte_kept ∙ held.byte_there;
        perms_there = kept.perms_kept ∙ held.perms_there;
      }
