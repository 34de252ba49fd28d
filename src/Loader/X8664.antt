-- ===== src/Loader/X8664.antt =====
-- loader/src/x86_64/cpu_state_dump.c
pub mod Table
use process_bridge.Base.{
  ℕ, ◌-◌, ◌/◌, bit_and, bit_or, Bool, not, ◌&&◌, ◌||◌, List, [], ◌∷◌, Run, pure, fatal_if, ◌>>=◌,
  ◌>>◌, ◌==◌, if◌then◌else◌, set, replicate, ◌^◌,
}
use process_bridge.Base.Bytes.{words_bytes}
use process_bridge.Common.X8664.{X8664Regs}
use process_bridge.Loader.Gdt.{
  pb_gdt_addr, pb_gdt_size, gdt_entry_init, desc_code64, desc_data64, desc_user, ◌bor◌,
}
use process_bridge.Loader.Host.{
  Host, Reg, rax, rbx, rcx, rdx, rsi, rdi, rbp, rsp, r8, r9, r10, r11, r12, r13, r14, r15, rip,
  eflags, cs, ss, ds, es, fs, gs, fs_base, gs_base,
}
use process_bridge.Loader.Check.{pb_uc_check, pb_uc_check_value, minus_one}
use process_bridge.Loader.Writes.{write_regs}

abbrev pub gdt_entry_default_user_ds : ℕ
gdt_entry_default_user_ds = 5

abbrev pub gdt_entry_default_user_cs : ℕ
gdt_entry_default_user_cs = 6

-- `uint8_t gdt[PB_GDT_SIZE] = {0}`, as the array of `uint64_t` that it is used as.
unfoldable pub zero_gdt : List ℕ
zero_gdt = replicate 512 0

-- `selector & 0x4`: the selector is one of the local descriptor table.
abbrev pub in_ldt : ℕ → Bool
in_ldt selector = not (bit_and selector 0x4 == 0)

-- `selector >> 3`
abbrev pub table_index : ℕ → ℕ
table_index selector = selector / 2 ^ 3

-- The calls of `uc_reg_write` in `dump_regs`, in their order.
abbrev pub reg_writes : X8664Regs → List (Reg × ℕ)
reg_writes s =
    (rax, s.rax)
    ∷ (rbx, s.rbx)
    ∷ (rcx, s.rcx)
    ∷ (rdx, s.rdx)
    ∷ (rsi, s.rsi)
    ∷ (rdi, s.rdi)
    ∷ (rbp, s.rbp)
    ∷ (rsp, s.rsp)
    ∷ (r8, s.r8)
    ∷ (r9, s.r9)
    ∷ (r10, s.r10)
    ∷ (r11, s.r11)
    ∷ (r12, s.r12)
    ∷ (r13, s.r13)
    ∷ (r14, s.r14)
    ∷ (r15, s.r15)
    ∷ (rip, s.rip)
    ∷ (eflags, s.eflags)
    ∷ (cs, s.cs)
    ∷ (ss, s.ss)
    ∷ (ds, s.ds)
    ∷ (es, s.es)
    ∷ (fs, s.fs)
    ∷ (gs, s.gs)
    ∷ (fs_base, s.fs_base)
    ∷ (gs_base, s.gs_base)
    ∷ []

module _ (H : Host) (uc : ℕ) where
  unfoldable pub dump_gdt : X8664Regs → Run H.World ℕ
  dump_gdt s = do
    pb_uc_check (H.uc_mem_map uc pb_gdt_addr pb_gdt_size (bit_or H.uc_prot_read H.uc_prot_write))
    fatal_if
        (in_ldt s.cs || in_ldt s.ds || in_ldt s.es || in_ldt s.fs || in_ldt s.gs || in_ldt s.ss)
    fatal_if (not (table_index s.cs == gdt_entry_default_user_cs))
    let code_desc = gdt_entry_init (desc_code64 bor desc_user) 0 0xfffff
    let gdt_code = set zero_gdt gdt_entry_default_user_cs code_desc
    fatal_if (not (table_index s.ss == gdt_entry_default_user_ds))
    let data_desc = gdt_entry_init (desc_data64 bor desc_user) 0 0xfffff
    let gdt_data = set gdt_code gdt_entry_default_user_ds data_desc
    fatal_if (not (table_index s.ds == 0) && not (table_index s.ds == gdt_entry_default_user_ds))
    fatal_if (not (table_index s.es == 0) && not (table_index s.es == gdt_entry_default_user_ds))
    pb_uc_check (H.uc_mem_write uc pb_gdt_addr (words_bytes 8 gdt_data))
    pb_uc_check (H.uc_mem_protect uc pb_gdt_addr pb_gdt_size H.uc_prot_read)
    pb_uc_check (
        H.uc_gdtr_write uc
          (record { selector = 0; base = pb_gdt_addr; limit = pb_gdt_size - 1; flags = 0 }))
    pure 0

  unfoldable pub dump_regs : X8664Regs → Run H.World ℕ
  dump_regs s = do write_regs H uc (reg_writes s); pure 0

  unfoldable pub dump_x86_64_cpu_state : X8664Regs → Run H.World ℕ
  dump_x86_64_cpu_state s = do
    gdt ← dump_gdt s
    if gdt == minus_one then pure minus_one else (do
      regs ← dump_regs s
      if regs == minus_one then pure minus_one else pb_uc_check_value (H.uc_reg_read uc rip))
