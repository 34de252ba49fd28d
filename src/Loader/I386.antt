-- ===== src/Loader/I386.antt =====
-- loader/src/i386/cpu_state_dump.c
pub mod Bounds
pub mod Calls
use process_bridge.Base.{
  ℕ, ◌+◌, ◌-◌, ◌/◌, bit_or, ◌||◌, List, [], ◌∷◌, Run, if◌then◌else◌, pure, ◌==◌, ltb, set, ub,
  fatal, ◌>>◌, ◌>>=◌, fatal_if,
}
use process_bridge.Common.I386.{I386Regs}
use process_bridge.Common.I386State.{I386State}
use process_bridge.Common.UserDesc.{UserDesc}
use process_bridge.Loader.Gdt.{
  pb_gdt_addr, pb_gdt_size, gdt_entry_init, user_desc_to_real_desc, desc_data64, ◌bor◌, desc_user,
  desc_data32, desc_code32,
}
use process_bridge.Loader.Host.{
  Host, Reg, eax, ebx, ecx, edx, esi, edi, ebp, esp, eip, ds, es, fs, gs,
}
use process_bridge.Loader.Check.{minus_one, pb_uc_check, pb_uc_check_value}
use process_bridge.Loader.Writes.{write_regs}
use process_bridge.Base.Bytes.{words_bytes}
use process_bridge.Loader.X8664.{in_ldt, table_index, zero_gdt}

abbrev pub compatibility_gdt_entry_default_user32_cs : ℕ
compatibility_gdt_entry_default_user32_cs = 4

abbrev pub true_gdt_entry_default_user_cs : ℕ
true_gdt_entry_default_user_cs = 14

abbrev pub pb_trampoline_addr : ℕ
pb_trampoline_addr = 0x2000

abbrev pub pb_trampoline_size : ℕ
pb_trampoline_size = 0x1000

-- `gdt_array[index] = desc`: `gdt` has room for 512 descriptors, and the source tests no index.
unfoldable pub gdt_store : {W : Type 0} → ℕ → ℕ → List ℕ → Run W (List ℕ)
gdt_store index desc gdt = if ltb index 512 then pure (set gdt index desc) else ub

-- The loop over `state->tls`.
unfoldable pub store_tls : {W : Type 0} → List UserDesc → List ℕ → Run W (List ℕ)
store_tls [] gdt = pure gdt
store_tls (d ∷ tls) gdt = do
  gdt' ← gdt_store d.entry_number (user_desc_to_real_desc d) gdt
  store_tls tls gdt'

-- The descriptor of the data segment, by the index of the code segment.
unfoldable pub data_desc_for : {W : Type 0} → ℕ → Run W ℕ
data_desc_for cs_index =
    if cs_index == compatibility_gdt_entry_default_user32_cs
    then pure (gdt_entry_init (desc_data64 bor desc_user) 0 0xfffff)
    else (if cs_index == true_gdt_entry_default_user_cs
        then pure (gdt_entry_init (desc_data32 bor desc_user) 0 0xfffff)
        else fatal)

-- The calls of `uc_reg_write` in `dump_regs` before and after `enter_ring3`, in their order.
abbrev pub general_writes : I386Regs → List (Reg × ℕ)
general_writes r =
    (ebx, r.ebx)
    ∷ (ecx, r.ecx)
    ∷ (edx, r.edx)
    ∷ (esi, r.esi)
    ∷ (edi, r.edi)
    ∷ (ebp, r.ebp)
    ∷ (eax, r.eax)
    ∷ []

abbrev pub segment_writes : I386Regs → List (Reg × ℕ)
segment_writes r = (ds, r.xds) ∷ (es, r.xes) ∷ (fs, r.xfs) ∷ (gs, r.xgs) ∷ []

-- What `iret` pops.
abbrev pub iret_frame : I386Regs → List ℕ
iret_frame r = r.eip ∷ r.xcs ∷ r.eflags ∷ r.esp ∷ r.xss ∷ []

abbrev pub frame_addr : ℕ
frame_addr = pb_trampoline_addr + pb_trampoline_size / 2

module _ (H : Host) (uc : ℕ) where
  unfoldable pub dump_gdt : I386State → Run H.World ℕ
  dump_gdt s = do
    let r = s.regs
    pb_uc_check (H.uc_mem_map uc pb_gdt_addr pb_gdt_size (bit_or H.uc_prot_read H.uc_prot_write))
    fatal_if (
        in_ldt r.xcs
        || in_ldt r.xds
        || in_ldt r.xes
        || in_ldt r.xfs
        || in_ldt r.xgs
        || in_ldt r.xss)
    let code_desc = gdt_entry_init (desc_code32 bor desc_user) 0 0xfffff
    data_desc ← data_desc_for (table_index r.xcs)
    gdt_code ← gdt_store (table_index r.xcs) code_desc zero_gdt
    gdt_data ← gdt_store (table_index r.xss) data_desc gdt_code
    gdt ← store_tls s.tls gdt_data
    pb_uc_check (H.uc_mem_write uc pb_gdt_addr (words_bytes 8 gdt))
    pb_uc_check (H.uc_mem_protect uc pb_gdt_addr pb_gdt_size H.uc_prot_read)
    pb_uc_check (
        H.uc_gdtr_write uc
          (record { selector = 0; base = pb_gdt_addr; limit = pb_gdt_size - 1; flags = 0 }))
    pure 0

  unfoldable pub enter_ring3 : I386State → Run H.World ℕ
  enter_ring3 s = do
    pb_uc_check (
        H.uc_mem_map uc pb_trampoline_addr pb_trampoline_size
          (bit_or (bit_or H.uc_prot_read H.uc_prot_write) H.uc_prot_exec))
    pb_uc_check (H.uc_mem_write uc pb_trampoline_addr (0xCF ∷ []))
    pb_uc_check (H.uc_mem_write uc frame_addr (words_bytes 4 (iret_frame s.regs)))
    pb_uc_check (H.uc_reg_write uc esp frame_addr)
    pb_uc_check (H.uc_emu_start uc pb_trampoline_addr 0 0 1)
    pb_uc_check (H.uc_mem_unmap uc pb_trampoline_addr pb_trampoline_size)
    pure 0

  unfoldable pub dump_regs : I386State → Run H.World ℕ
  dump_regs s = do
    write_regs H uc (general_writes s.regs)
    entered ← enter_ring3 s
    if entered == minus_one
        then pure minus_one
        else (do write_regs H uc (segment_writes s.regs); pure 0)

  unfoldable pub dump_i386_cpu_state : I386State → Run H.World ℕ
  dump_i386_cpu_state s = do
    gdt ← dump_gdt s
    if gdt == minus_one then pure minus_one else (do
      regs ← dump_regs s
      if regs == minus_one then pure minus_one else pb_uc_check_value (H.uc_reg_read uc eip))
