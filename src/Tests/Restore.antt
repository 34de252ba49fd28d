-- ===== src/Tests/Restore.antt =====
-- Restoring the sample snapshots: the loader's theorems at concrete snapshots.
use process_bridge.Base.{
  refl, ◌≡◌, ◌++◌, length, ℕ, Outcome, returned, exited, Ends, List, ◌≢◌, ◌>>◌, arith, ◌∙◌, ◌+◌, [],
  get_or, some,
}
use process_bridge.Common.X8664.{x8664_regs_bytes}
use process_bridge.Common.Snapshot.{sections_bytes}
use process_bridge.Loader.X8664
use process_bridge.Loader.Registers.{reg_eq, AreFitting}
use process_bridge.Loader.Host.{fs_base}
use process_bridge.Loader.Dump.{
  restore_from, load_mapping, dump_snapshot, mapping_size, entry_perms,
}
use process_bridge.Loader.Dump.Restore.{restore_from-x8664}
use process_bridge.Loader.Dump.Sections.{load_sections}
use process_bridge.Loader.Engine.Memory.{HoldsAt}
use process_bridge.Loader.Engine.Cpu.{restore_from-HoldsAt}
use process_bridge.Loader.Registers.Restored.{dump_x86_64_cpu_state-saved, saved}
use process_bridge.Tests.Machine.{
  Machine, machine_host, machine_view, machine_memory, machine_registers,
}
use process_bridge.Tests.Samples.{
  sample_regs, sample_sections, sample_section, machine_in, sample_regs-IsX8664Regs,
  sample_sections-IsSection,
}
use process_bridge.Tests.Layout.{sample_layout}
use process_bridge.Loader.Check.{pb_uc_check, pb_uc_check_value}
use process_bridge.Loader.Writes.{write_regs}
use process_bridge.Base.Bytes.{words_bytes, le_bytes}
use process_bridge.Loader.Gdt.{gdt_entry_init}
use process_bridge.Loader.X8664.Table.{IsUserSelectors, user_gdt, dump_gdt-user_gdt}
use process_bridge.Loader.Dump.Termination.{dump_snapshot-Ends}

abbrev pub final : {A : Type 0} → Outcome Machine A → Machine
final (returned a m) = m
final (exited c m) = m
final _ = machine_in 0

abbrev pub sample_file : List ℕ
sample_file = x8664_regs_bytes sample_regs ++ sections_bytes sample_sections

abbrev cpu_run : Outcome Machine ℕ
cpu_run = X8664.dump_x86_64_cpu_state machine_host 1 sample_regs (machine_in 8)

cpu_run_returns : cpu_run ≡ returned 0x401000 (final cpu_run)
unfolding X8664.dump_x86_64_cpu_state X8664.dump_gdt X8664.dump_regs pb_uc_check write_regs
    pb_uc_check_value words_bytes le_bytes X8664.zero_gdt gdt_entry_init reg_eq
cpu_run_returns = refl

pub sample_regs-AreFitting : AreFitting (X8664.reg_writes sample_regs)
sample_regs-AreFitting = omega arith

dump_x86_64_cpu_state-saved_example :
    (0x401000 ≡ sample_regs.rip) × (machine_view.reg 1 fs_base (final cpu_run) ≡ 0x9000)
unfolding saved
dump_x86_64_cpu_state-saved_example =
    dump_x86_64_cpu_state-saved machine_host machine_view machine_registers 1 sample_regs
      (machine_in 8) (final cpu_run) 0x401000 sample_regs-AreFitting cpu_run_returns fs_base 0x9000
      refl

abbrev file_run : Outcome Machine ℕ
file_run = restore_from machine_host sample_layout 1 sample_file (length sample_file) (machine_in 8)

-- The same run, as its parts.
abbrev plan_run : Outcome Machine ℕ
plan_run =
    (load_sections machine_host 1 sample_sections
        >> X8664.dump_x86_64_cpu_state machine_host 1 sample_regs)
      (machine_in 8)

plan_run_returns : plan_run ≡ returned 0x401000 (final plan_run)
unfolding X8664.dump_x86_64_cpu_state X8664.dump_gdt X8664.dump_regs pb_uc_check write_regs
    pb_uc_check_value words_bytes le_bytes X8664.zero_gdt gdt_entry_init reg_eq load_sections
    load_mapping mapping_size entry_perms
plan_run_returns = refl

modes_apart : machine_host.uc_mode_32 ≢ machine_host.uc_mode_64
modes_apart e = ground arith

restore_from-x8664_example : file_run ≡ plan_run
restore_from-x8664_example =
    restore_from-x8664 machine_host sample_layout 1 sample_regs sample_sections
      sample_regs-IsX8664Regs sample_sections-IsSection modes_apart (machine_in 8) (machine_in 8)
      (machine_in 8) 4 refl refl

file_run_returns : file_run ≡ returned 0x401000 (final plan_run)
file_run_returns =
    restore_from-x8664 machine_host sample_layout 1 sample_regs sample_sections
      sample_regs-IsX8664Regs sample_sections-IsSection modes_apart (machine_in 8) (machine_in 8)
      (machine_in 8) 4 refl refl
    ∙ plan_run_returns

restore_from-HoldsAt_example : HoldsAt machine_host machine_view 1 sample_section 1 (final plan_run)
restore_from-HoldsAt_example =
    restore_from-HoldsAt machine_host machine_view machine_memory 1 sample_layout sample_regs
      sample_sections sample_regs-IsX8664Regs sample_sections-IsSection modes_apart (machine_in 8)
      (machine_in 8) (machine_in 8) (final plan_run) 4 0x401000 refl refl file_run_returns 0 1
      sample_section refl (ground arith)

dump_snapshot-Ends_example : Ends (dump_snapshot machine_host sample_layout 1 [] (machine_in 8))
dump_snapshot-Ends_example = dump_snapshot-Ends machine_host sample_layout 1 [] (machine_in 8)

abbrev gdt_run : Outcome Machine ℕ
gdt_run = X8664.dump_gdt machine_host 1 sample_regs (machine_in 8)

gdt_run_returns : gdt_run ≡ returned 0 (final gdt_run)
unfolding X8664.dump_gdt pb_uc_check words_bytes le_bytes X8664.zero_gdt gdt_entry_init
gdt_run_returns = refl

dump_gdt-user_gdt_example :
    IsUserSelectors sample_regs
    × (machine_view.byte 1 (0x3000 + 53) (final gdt_run) ≡ get_or (words_bytes 8 user_gdt) 53 0)
    × (machine_view.perms 1 (0x3000 + 53) (final gdt_run) ≡ some 1)
dump_gdt-user_gdt_example =
    dump_gdt-user_gdt machine_host machine_view machine_memory 1 sample_regs (machine_in 8)
      (final gdt_run) 0 53 gdt_run_returns (ground arith)
