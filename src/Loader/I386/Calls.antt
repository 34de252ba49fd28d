-- ===== src/Loader/I386/Calls.antt =====
-- The calls of the engine by which the i386 state of loader/src/i386/cpu_state_dump.c is restored.
use process_bridge.Loader.I386.{
  dump_gdt, enter_ring3, dump_i386_cpu_state, dump_regs, frame_addr, store_tls, data_desc_for,
  gdt_store, pb_trampoline_addr, general_writes, pb_trampoline_size, segment_writes, iret_frame,
}
use process_bridge.Base.{
  subst, ℕ, List, ◌≡◌, returned, length, arith, Bool-cases, ap, ltb, ◌∷◌, inl, [], >>-eq_returned,
  set, ◌∙◌, if◌then◌else◌, length-set, inr, bit_or, fatal_if-eq_returned, length-replicate, sym,
  Bool, ◌||◌,
}
use process_bridge.Loader.Host.{Host, Mmr, eip, esp}
use process_bridge.Common.UserDesc.{UserDesc}
use process_bridge.Common.I386State.{I386State}
use process_bridge.Loader.X8664.{zero_gdt, in_ldt}
use process_bridge.Loader.Writes.{write_regs}
use process_bridge.Base.Bytes.{words_bytes, length-words_bytes}
use process_bridge.Loader.Gdt.{pb_gdt_size, pb_gdt_addr}
use process_bridge.Loader.Check.{pb_uc_check_value-eq_returned, pb_uc_check_passed}
use process_bridge.Common.I386.{I386Regs}

-- A run that only returns gives its value and its world.
returned-parts :
    {W A : Type 0} (a b : A) (w w' : W) → returned a w ≡ returned b w' → (a ≡ b) × (w ≡ w')
returned-parts a b w w' h = (cc, cc)

module _ {W : Type 0} where
  gdt_store-length :
      (i desc : ℕ) (gdt gdt' : List ℕ) (w w' : W)
      → gdt_store i desc gdt w ≡ returned gdt' w'
      → (w' ≡ w) × (length gdt' ≡ length gdt)
  unfolding gdt_store
  gdt_store-length i desc gdt gdt' w w' h = elim (Bool-cases (ltb i 512)) [
    | inl inner ↦
        let run : returned (set gdt i desc) w ≡ returned gdt' w' = rw (if◌then◌else◌, inner) at h in
        let same : gdt' ≡ set gdt i desc = cc in (cc, rw (same) (length-set gdt i desc))
    | inr outer ↦ cc (rw (if◌then◌else◌, outer) at h)
  ]

  store_tls-length :
      (tls : List UserDesc) (gdt gdt' : List ℕ) (w w' : W)
      → store_tls tls gdt w ≡ returned gdt' w'
      → (w' ≡ w) × (length gdt' ≡ length gdt)
  unfolding store_tls
  store_tls-length [] gdt gdt' w w' h =
      let same : gdt' ≡ gdt = cc in (cc, ap (λ (g : List ℕ). length g) same)
  store_tls-length (d ∷ tls) gdt gdt' w w' h =
      let (g, u, first, rest) = >>-eq_returned (gdt_store d.entry_number _ gdt w) _ h in
      let (one, size) = gdt_store-length _ _ gdt g w u first in
      let (more, sizes) = store_tls-length tls g gdt' u w' rest in (more ∙ one, sizes ∙ size)

  data_desc_for_world :
      (index desc : ℕ) (w w' : W) → data_desc_for index w ≡ returned desc w' → w' ≡ w
  unfolding data_desc_for
  data_desc_for_world index desc w w' h = ground arith

-- A selector of the state names the local table.
abbrev uses_ldt : I386Regs → Bool
uses_ldt r =
    in_ldt r.xcs || in_ldt r.xds || in_ldt r.xes || in_ldt r.xfs || in_ldt r.xgs || in_ldt r.xss

module _ (H : Host) (uc : ℕ) where
  -- The four calls of `dump_gdt`, and the table that is written.
  pub dump_gdt_calls :
      (s : I386State) (w w' : H.World) (code : ℕ)
      → dump_gdt H uc s w ≡ returned code w'
      → (gdt : List ℕ) × (mmr : Mmr) × (t u v : H.World) × (code ≡ 0)
        × (length (words_bytes 8 gdt) ≡ pb_gdt_size)
        × (H.uc_mem_map uc pb_gdt_addr pb_gdt_size (bit_or H.uc_prot_read H.uc_prot_write) w
            ≡ (0, t))
        × (H.uc_mem_write uc pb_gdt_addr (words_bytes 8 gdt) t ≡ (0, u))
        × (H.uc_mem_protect uc pb_gdt_addr pb_gdt_size H.uc_prot_read u ≡ (0, v))
        × (H.uc_gdtr_write uc mmr v ≡ (0, w'))
  unfolding dump_gdt zero_gdt
  dump_gdt_calls s w w' code h =
      let (t, mapped, after_map) = pb_uc_check_passed _ w _ h in
      let (_, after_test) = fatal_if-eq_returned (uses_ldt s.regs) t _ after_map in
      let (desc, t1, described, after_desc) = >>-eq_returned (data_desc_for _ t) _ after_test in
      let (g1, t2, stored1, after1) = >>-eq_returned (gdt_store _ _ zero_gdt t1) _ after_desc in
      let (g2, t3, stored2, after2) = >>-eq_returned (gdt_store _ _ g1 t2) _ after1 in
      let (gdt, t4, stored3, after3) = >>-eq_returned (store_tls s.tls g2 t3) _ after2 in
      let (u, written, after_write) = pb_uc_check_passed _ t4 _ after3 in
      let (v, protected, after_protect) = pb_uc_check_passed _ u _ after_write in
      let (z, loaded, ended) = pb_uc_check_passed _ v _ after_protect in
      let l1 = gdt_store-length _ _ zero_gdt g1 t1 t2 stored1 in
      let l2 = gdt_store-length _ _ g1 g2 t2 t3 stored2 in
      let l3 = store_tls-length s.tls g2 gdt t3 t4 stored3 in
      let same : t4 ≡ t = l3.0 ∙ l2.0 ∙ l1.0 ∙ data_desc_for_world _ desc t t1 described in
      let size : length gdt ≡ 512 = l3.1 ∙ l2.1 ∙ l1.1 ∙ length-replicate {A = ℕ} 512 0 in
      let (value, last) = returned-parts 0 code z w' ended in
      (
        gdt,
        _,
        t,
        u,
        v,
        sym value,
        length-words_bytes 8 gdt ∙ omega (arith, size),
        mapped,
        subst (λ z. H.uc_mem_write uc pb_gdt_addr (words_bytes 8 gdt) z ≡ (0, u)) same written,
        protected,
        rw last at loaded,
      )

  -- The six calls of `enter_ring3`.
  pub enter_ring3_calls :
      (s : I386State) (w w' : H.World) (code : ℕ)
      → enter_ring3 H uc s w ≡ returned code w'
      → (t u v x y : H.World) × (code ≡ 0)
        × (H.uc_mem_map uc pb_trampoline_addr pb_trampoline_size
              (bit_or (bit_or H.uc_prot_read H.uc_prot_write) H.uc_prot_exec)
              w
            ≡ (0, t))
        × (H.uc_mem_write uc pb_trampoline_addr (0xCF ∷ []) t ≡ (0, u))
        × (H.uc_mem_write uc frame_addr (words_bytes 4 (iret_frame s.regs)) u ≡ (0, v))
        × (H.uc_reg_write uc esp frame_addr v ≡ (0, x))
        × (H.uc_emu_start uc pb_trampoline_addr 0 0 1 x ≡ (0, y))
        × (H.uc_mem_unmap uc pb_trampoline_addr pb_trampoline_size y ≡ (0, w'))
  unfolding enter_ring3
  enter_ring3_calls s w w' code h =
      let (t, mapped, r1) = pb_uc_check_passed _ w _ h in
      let (u, stub, r2) = pb_uc_check_passed _ t _ r1 in
      let (v, frame, r3) = pb_uc_check_passed _ u _ r2 in
      let (x, stack, r4) = pb_uc_check_passed _ v _ r3 in
      let (y, ran, r5) = pb_uc_check_passed _ x _ r4 in
      let (z, unmapped, ended) = pb_uc_check_passed _ y _ r5 in
      let (value, last) = returned-parts 0 code z w' ended in
      (t, u, v, x, y, sym value, mapped, stub, frame, stack, ran, rw last at unmapped)

  -- The five steps of `dump_i386_cpu_state`: the table, the general registers, the trampoline, the
  -- segment registers, and the reading of `eip`.
  pub dump_i386_cpu_state_steps :
      (s : I386State) (w w' : H.World) (entry : ℕ)
      → dump_i386_cpu_state H uc s w ≡ returned entry w'
      → (t u v x : H.World) × (dump_gdt H uc s w ≡ returned 0 t)
        × (write_regs H uc (general_writes s.regs) t ≡ returned tt u)
        × (enter_ring3 H uc s u ≡ returned 0 v)
        × (write_regs H uc (segment_writes s.regs) v ≡ returned tt x)
        × (H.uc_reg_read uc eip x ≡ ((0, entry), w'))
  unfolding dump_i386_cpu_state dump_regs
  dump_i386_cpu_state_steps s w w' entry h =
      let (gdt, t, table, after_gdt) = >>-eq_returned (dump_gdt H uc s w) _ h in
      let (_, _, _, _, _, gdt_zero, _, _, _, _, _) = dump_gdt_calls s w t gdt table in
      let go_on = rw (if◌then◌else◌, gdt_zero) at after_gdt in
      let (regs, x, loaded, after_regs) = >>-eq_returned (dump_regs H uc s t) _ go_on in
      let (_, u, general, after_general) =
        >>-eq_returned (write_regs H uc (general_writes s.regs) t) _ loaded in
      let (code, v, entered, after_ring3) = >>-eq_returned (enter_ring3 H uc s u) _ after_general in
      let (_, _, _, _, _, code_zero, _, _, _, _, _, _) = enter_ring3_calls s u v code entered in
      let go_segments = rw (if◌then◌else◌, code_zero) at after_ring3 in
      let (_, x', segments, ended) =
        >>-eq_returned (write_regs H uc (segment_writes s.regs) v) _ go_segments in
      let (value, same) = returned-parts 0 regs x' x ended in
      let regs_zero : regs ≡ 0 = sym value in
      (
        t,
        u,
        v,
        x,
        rw gdt_zero at table,
        general,
        rw code_zero at entered,
        rw same at segments,
        pb_uc_check_value-eq_returned _ x w' entry (rw (if◌then◌else◌, regs_zero) at after_regs),
      )
