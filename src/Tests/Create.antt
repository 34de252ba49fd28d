-- ===== src/Tests/Create.antt =====
-- The exported functions of the loader on the machine with the sample file.
use process_bridge.Base.{
  refl, Outcome, ◌≢◌, ℕ, returned, some, ◌≡◌, Option, exited, [], false, undefined, none,
  out_of_fuel, ◌⊎◌, true,
}
use process_bridge.Loader.X8664
use process_bridge.Loader.Registers.{reg_eq}
use process_bridge.Tests.Machine.{Machine, machine_host}
use process_bridge.Loader.Create.{
  pb_restore_snapshot, pb_create_from_snapshot, listed, supported_arch_modes,
}
use process_bridge.Tests.Samples.{machine_in, sample_regs}
use process_bridge.Tests.Layout.{sample_layout}
use process_bridge.Loader.Dump.{
  dump_snapshot, restore_from, read_state, read_front, read_bytes, load_mappings,
}
use process_bridge.Loader.Check.{minus_one, pb_uc_check, pb_uc_check_value}
use process_bridge.Common.X8664.{x8664_regs_bytes, x8664_regs_of}
use process_bridge.Loader.Create.Results.{pb_create_from_snapshot-engine}
use process_bridge.Loader.Cpu.{dump_cpu_state}
use process_bridge.Base.Bytes.{word_at, le_value, words_bytes, le_bytes}
use process_bridge.Loader.Writes.{write_regs}
use process_bridge.Loader.Gdt.{gdt_entry_init}

abbrev final : {A : Type 0} → Outcome Machine A → Machine
final (returned a m) = m
final (exited c m) = m
final undefined = machine_in 0
final out_of_fuel = machine_in 0

-- The machine with the snapshot of a process that has no mapping.
abbrev file_machine : Machine
file_machine = record (machine_in 8) { file = some (x8664_regs_bytes sample_regs) }

abbrev restored_run : Outcome Machine ℕ
restored_run = pb_restore_snapshot machine_host sample_layout 1 [] file_machine

restored_run_returns : restored_run ≡ returned 0x401000 (final restored_run)
unfolding pb_restore_snapshot dump_snapshot restore_from read_state read_front read_bytes
    load_mappings dump_cpu_state x8664_regs_of x8664_regs_bytes word_at le_value
    X8664.dump_x86_64_cpu_state X8664.dump_gdt X8664.dump_regs pb_uc_check write_regs
    pb_uc_check_value words_bytes le_bytes X8664.zero_gdt gdt_entry_init reg_eq
restored_run_returns = refl

abbrev engine_one : Option ℕ
engine_one = some 1

abbrev created_run : Outcome Machine (ℕ × Option ℕ)
created_run = pb_create_from_snapshot machine_host sample_layout 4 8 [] file_machine

created_run_returns : created_run ≡ returned (0x401000, some 1) (final created_run)
unfolding pb_create_from_snapshot listed pb_restore_snapshot dump_snapshot restore_from read_state
    read_front read_bytes load_mappings dump_cpu_state x8664_regs_of x8664_regs_bytes word_at
    le_value X8664.dump_x86_64_cpu_state X8664.dump_gdt X8664.dump_regs pb_uc_check write_regs
    pb_uc_check_value words_bytes le_bytes X8664.zero_gdt gdt_entry_init reg_eq
created_run_returns = refl

pb_create_from_snapshot-engine_example :
    ((listed 4 8 (supported_arch_modes machine_host) ≡ false)
      × (0x401000 ≡ minus_one)
      × (engine_one ≡ none)
      × (final created_run ≡ file_machine))
    ⊎ ((listed 4 8 (supported_arch_modes machine_host) ≡ true)
        × (0x401000 ≢ minus_one)
        × (first second : ℕ) × (u v : Machine) × (machine_host.uc_open 4 8 file_machine
            ≡ ((0, first), u))
        × (machine_host.uc_open 4 8 u ≡ ((0, second), v))
        × (engine_one ≡ some second))
pb_create_from_snapshot-engine_example =
    pb_create_from_snapshot-engine machine_host sample_layout 4 8 [] file_machine
      (final created_run) 0x401000 engine_one created_run_returns
