-- ===== src/Loader/Engine/Live.antt =====
-- The way of a well-formed file of a 64-bit process through the loader, loader/src/dump.c.
use process_bridge.Base.{
  [], ℕ, ◌≡◌, ◌⊎◌, List, All, returned, not, ◌==◌, ◌∷◌, length, ◌&&◌, refl, false, arith, bit_or,
  ◌≢◌, ◌∙◌, ◌-◌, ◌++◌, true,
}
use process_bridge.Loader.Host.{Host, Reg, Mmr, rip}
use process_bridge.Loader.Engine.{View, HasMemory, inside}
use process_bridge.Loader.Engine.Progress.{
  HasProgress, IsPagedSection, IsApart, IsFree, AreApart, AreOutside, check_works, AreFree, IsPaged,
  range_calls, writing, entry_perms-IsProt, apart_outside, both, reading, value_works, AreTaken,
}
use process_bridge.Loader.Dump.Sections.{load_sections, mapping_size_lem}
use process_bridge.Loader.Writes.{write_regs}
use process_bridge.Loader.Dump.{load_mapping, entry_perms, mapping_size, restore_from}
use process_bridge.Loader.X8664.{
  dump_gdt, dump_regs, dump_x86_64_cpu_state, reg_writes, table_index, gdt_entry_default_user_cs,
  gdt_entry_default_user_ds,
}
use process_bridge.Common.Snapshot.{Section, IsSection, sections_bytes}
use process_bridge.Common.X8664.{X8664Regs, IsX8664Regs, x8664_regs_bytes}
use process_bridge.Loader.X8664.Table.{IsUserSelectors, written_gdt, length-written_gdt}
use process_bridge.Loader.Gdt.{pb_gdt_addr, pb_gdt_size}
use process_bridge.Base.Bytes.{words_bytes}
use process_bridge.Common.UserDesc.{DescLayout}
use process_bridge.Loader.Engine.Memory.{load_mapping_keeps}
use process_bridge.Loader.Dump.Restore.{restore_from-x8664}

module _ (H : Host) (V : View H) (memory : HasMemory H V) (progress : HasProgress H V)
    (uc : ℕ) where
  load_mapping_works :
      (s : Section) (w : H.World)
      → IsSection s
      → IsPagedSection s
      → IsFree H V uc s.entry.start (length s.content) w
      → (w' : H.World) × (load_mapping H uc s.entry s.content w ≡ returned tt w')
  unfolding load_mapping
  load_mapping_works s w good paged free =
      let size = mapping_size_lem s good in
      let (u, v, w', c1, c2, c3) =
        range_calls H V memory progress uc s.entry.start (length s.content) H.uc_prot_write
          (entry_perms H s.entry) s.content w refl paged writing (entry_perms-IsProt H s.entry)
          free in
      (w', rw (size, c1, c2, c3) refl)

  -- Loading a section leaves a range apart from it free.
  load_mapping-IsFree :
      (s : Section) (start size : ℕ) (w w' : H.World)
      → IsSection s
      → load_mapping H uc s.entry s.content w ≡ returned tt w'
      → IsApart s.entry.start (length s.content) start size
      → IsFree H V uc start size w
      → IsFree H V uc start size w'
  load_mapping-IsFree s start size w w' good h apart free x inner =
      let outer = apart_outside s.entry.start (length s.content) start size x apart inner in
      let outer_mapping : inside s.entry.start (mapping_size s.entry) x ≡ false =
        rw (mapping_size_lem s good) outer in
      (load_mapping_keeps H V memory uc s w w' x good h outer_mapping).perms_kept ∙ free x inner

  load_mapping-AreFree :
      (s : Section) (ss : List Section) (w w' : H.World)
      → IsSection s
      → load_mapping H uc s.entry s.content w ≡ returned tt w'
      → All (λ t. IsApart s.entry.start (length s.content) t.entry.start (length t.content)) ss
      → AreFree H V uc ss w
      → AreFree H V uc ss w'
  load_mapping-AreFree s [] w w' good h apart free = tt
  load_mapping-AreFree s (t ∷ ss) w w' good h apart free = (
    load_mapping-IsFree s t.entry.start (length t.content) w w' good h apart.0 free.0,
    load_mapping-AreFree s ss w w' good h apart.1 free.1,
  )

  load_sections_works :
      (ss : List Section) (start size : ℕ) (w : H.World)
      → All IsSection ss
      → All IsPagedSection ss
      → AreApart ss
      → AreOutside start size ss
      → AreFree H V uc ss w
      → IsFree H V uc start size w
      → (w' : H.World) × (load_sections H uc ss w ≡ returned tt w') × IsFree H V uc start size w'
  unfolding load_sections
  load_sections_works [] start size w good paged apart outside free range = (w, refl, range)
  load_sections_works (s ∷ ss) start size w good paged apart outside free range =
      let (u, first) = load_mapping_works s w good.0 paged.0 free.0 in
      let (w', rest, left) =
        load_sections_works ss start size u good.1 paged.1 apart.1 outside.1
          (load_mapping-AreFree s ss w u good.0 first apart.0 free.1)
          (load_mapping-IsFree s start size w u good.0 first outside.0 range) in
      (w', rw (first) rest, left)

  write_regs_works :
      (writes : List (Reg × ℕ)) (w : H.World)
      → AreTaken writes
      → (w' : H.World) × (write_regs H uc writes w ≡ returned tt w')
  unfolding write_regs
  write_regs_works [] w taken = (w, refl)
  write_regs_works ((r, v) ∷ writes) w taken =
      let (u, _, first) =
        check_works (H.uc_reg_write uc r v) w (progress.reg_works uc r v w taken.0) in
      let (w', rest) = write_regs_works writes u taken.1 in (w', rw (first) rest)

  accepted : (a b : ℕ) → (a ≡ 0) ⊎ (a ≡ b) → (not (a == 0) && not (a == b)) ≡ false
  accepted a b h = ground arith

  dump_gdt_works :
      (s : X8664Regs) (w : H.World)
      → IsUserSelectors s
      → IsFree H V uc pb_gdt_addr pb_gdt_size w
      → (w' : H.World) × (dump_gdt H uc s w ≡ returned 0 w')
  unfolding dump_gdt
  dump_gdt_works s w user free =
      let paged : IsPaged pb_gdt_addr pb_gdt_size = record {
        some_page = omega arith;
        start_aligned = refl;
        size_aligned = refl;
        range_fits = ground arith;
      } in
      let (t, u, v, c1, c2, c3) =
        range_calls H V memory progress uc pb_gdt_addr pb_gdt_size
          (bit_or H.uc_prot_read H.uc_prot_write) H.uc_prot_read (words_bytes 8 written_gdt) w
          (length-written_gdt H V memory uc) paged (both _ _ reading writing) reading free in
      let mmr : Mmr = record {
        selector = 0;
        base = pb_gdt_addr;
        limit = pb_gdt_size - 1;
        flags = 0;
      } in
      let (w', _, c4) = check_works (H.uc_gdtr_write uc mmr) v (progress.gdtr_works uc mmr v) in
      let code : (table_index s.cs == gdt_entry_default_user_cs) ≡ true =
        ground (arith, user.code_segment) in
      let stack : (table_index s.ss == gdt_entry_default_user_ds) ≡ true =
        ground (arith, user.stack_segment) in
      let data_ok = accepted _ _ user.data_segment in
      let extra_ok = accepted _ _ user.extra_segment in
      (w', rw (c1) (rw (user.global, code, stack, data_ok, extra_ok) (rw (c2, c3, c4) refl)))

  cpu_state_works :
      (s : X8664Regs) (w : H.World)
      → IsUserSelectors s
      → AreTaken (reg_writes s)
      → IsFree H V uc pb_gdt_addr pb_gdt_size w
      → (entry : ℕ) × (w' : H.World) × (dump_x86_64_cpu_state H uc s w ≡ returned entry w')
  unfolding dump_x86_64_cpu_state dump_regs
  cpu_state_works s w user taken free =
      let (u, first) = dump_gdt_works s w user free in
      let (v, regs) = write_regs_works (reg_writes s) u taken in
      let (entry, w', last) = value_works (H.uc_reg_read uc rip) v (progress.read_works uc rip v) in
      (entry, w', rw (first) (rw (regs) last))

  -- In an engine that keeps the laws of its memory, whose calls succeed on whole pages that are
  -- free or mapped as each needs it, in 64-bit mode, where the codes of the two modes differ: a
  -- file of well-formed x86_64 registers with the selectors of a user process and values that the
  -- registers take, and of well-formed sections of whole pages that are free, apart from each other
  -- and from the table of descriptors, is restored, with a return and no exit.
  pub restore_from-returned :
      (L : DescLayout) (s : X8664Regs) (ss : List Section)
      → IsX8664Regs s
      → IsUserSelectors s
      → AreTaken (reg_writes s)
      → All IsSection ss
      → All IsPagedSection ss
      → AreApart ss
      → AreOutside pb_gdt_addr pb_gdt_size ss
      → H.uc_mode_32 ≢ H.uc_mode_64
      → (w u v : H.World) (arch : ℕ) → H.uc_query_arch uc w ≡ (arch, u)
      → H.uc_query_mode uc u ≡ (H.uc_mode_64, v)
      → AreFree H V uc ss v
      → IsFree H V uc pb_gdt_addr pb_gdt_size v
      → (entry : ℕ) × (w' : H.World) × (restore_from H L uc
            (x8664_regs_bytes s ++ sections_bytes ss)
            (length (x8664_regs_bytes s ++ sections_bytes ss))
            w
          ≡ returned entry w')
  restore_from-returned L s ss fits user taken good paged apart outside differ w u v arch qa qm free
        table =
      let plan = restore_from-x8664 H L uc s ss fits good differ w u v arch qa qm in
      let (t, loaded, left) =
        load_sections_works ss pb_gdt_addr pb_gdt_size v good paged apart outside free table in
      let (entry, w', cpu) = cpu_state_works s t user taken left in
      (entry, w', plan ∙ rw (loaded) cpu)
