-- ===== src/Tests/Restore32.antt =====
-- Restoring the sample i386 snapshot: the loader's theorems at a concrete state.
use process_bridge.Loader.I386
use process_bridge.Base.{List, Outcome, ℕ, ◌≡◌, length, ◌++◌, arith, ◌>>◌, refl, ◌∙◌, returned}
use process_bridge.Loader.Dump.{restore_from, load_mapping, mapping_size, entry_perms}
use process_bridge.Loader.Engine.Memory.{HoldsAt}
use process_bridge.Loader.Engine.Ring3.{IsUserFrame}
use process_bridge.Loader.Check.{pb_uc_check, pb_uc_check_value}
use process_bridge.Loader.Registers.Restored32.{dump_i386_cpu_state-saved32}
use process_bridge.Loader.Registers.Saved32.{saved32}
use process_bridge.Loader.Writes.{write_regs}
use process_bridge.Tests.Machine.{
  Machine, machine_host, machine_view, machine_memory, machine_registers,
}
use process_bridge.Tests.Samples.{
  sample_i386_state, machine_in, sample_section, sample_sections, sample_i386_state-IsI386State,
  sample_sections-IsSection,
}
use process_bridge.Tests.Layout.{sample_layout, sample_layout-IsLawful}
use process_bridge.Common.I386State.{i386_state_bytes}
use process_bridge.Loader.Dump.Sections.{load_sections}
use process_bridge.Loader.Host.{esp}
use process_bridge.Base.Bytes.{words_bytes, le_bytes, le_value}
use process_bridge.Common.Snapshot.{sections_bytes}
use process_bridge.Tests.Restore.{final}
use process_bridge.Loader.X8664.{zero_gdt}
use process_bridge.Loader.Engine.Cpu32.{restore_from-i386_HoldsAt}
use process_bridge.Loader.Dump.Restore.{restore_from-i386}
use process_bridge.Loader.Gdt.{gdt_entry_init, user_desc_to_real_desc}
use process_bridge.Tests.Ring3.{KernelRing, machine_ring3}
use process_bridge.Loader.Registers.{reg_eq, AreFitting}

-- The i386 snapshot, with its three descriptors of thread-local storage.
abbrev i386_file : List ℕ
i386_file = i386_state_bytes sample_layout sample_i386_state ++ sections_bytes sample_sections

restore_from-i386_example :
    restore_from machine_host sample_layout 1 i386_file (length i386_file) (machine_in 4)
    ≡ (load_sections machine_host 1 sample_sections
          >> I386.dump_i386_cpu_state machine_host 1 sample_i386_state)
        (machine_in 4)
restore_from-i386_example =
    restore_from-i386 machine_host sample_layout 1 sample_i386_state sample_sections
      sample_layout-IsLawful sample_i386_state-IsI386State sample_sections-IsSection (machine_in 4)
      (machine_in 4) (machine_in 4) 4 refl refl

abbrev cpu32_run : Outcome Machine ℕ
cpu32_run = I386.dump_i386_cpu_state machine_host 1 sample_i386_state (machine_in 4)

cpu32_run_returns : cpu32_run ≡ returned 0x8049000 (final cpu32_run)
unfolding I386.dump_i386_cpu_state I386.dump_gdt I386.dump_regs pb_uc_check write_regs
    pb_uc_check_value words_bytes le_bytes zero_gdt gdt_entry_init reg_eq I386.enter_ring3
    I386.gdt_store I386.store_tls I386.data_desc_for user_desc_to_real_desc le_value
cpu32_run_returns = refl

pub sample_i386-IsUserFrame : IsUserFrame sample_i386_state.regs
sample_i386-IsUserFrame = record {
  frame_fits = omega arith;
  code_fits = omega arith;
  stack_fits = omega arith;
  user_code = refl;
}

pub general-AreFitting : AreFitting (I386.general_writes sample_i386_state.regs)
general-AreFitting = omega arith

pub segments-AreFitting : AreFitting (I386.segment_writes sample_i386_state.regs)
segments-AreFitting = omega arith

dump_i386_cpu_state-saved32_example :
    (0x8049000 ≡ sample_i386_state.regs.eip) × (machine_view.reg 1 esp (final cpu32_run) ≡ 0x7ff0)
unfolding saved32
dump_i386_cpu_state-saved32_example =
    dump_i386_cpu_state-saved32 machine_host machine_view machine_memory machine_registers
      KernelRing machine_ring3 1 sample_i386_state (machine_in 4) (final cpu32_run) 0x8049000 refl
      sample_i386-IsUserFrame general-AreFitting segments-AreFitting cpu32_run_returns esp 0x7ff0
      refl

abbrev plan32_run : Outcome Machine ℕ
plan32_run =
    (load_sections machine_host 1 sample_sections
        >> I386.dump_i386_cpu_state machine_host 1 sample_i386_state)
      (machine_in 4)

plan32_run_returns : plan32_run ≡ returned 0x8049000 (final plan32_run)
unfolding I386.dump_i386_cpu_state I386.dump_gdt I386.dump_regs pb_uc_check write_regs
    pb_uc_check_value words_bytes le_bytes zero_gdt gdt_entry_init reg_eq I386.enter_ring3
    I386.gdt_store I386.store_tls I386.data_desc_for user_desc_to_real_desc le_value load_sections
    load_mapping mapping_size entry_perms
plan32_run_returns = refl

restore_from-i386_HoldsAt_example :
    HoldsAt machine_host machine_view 1 sample_section 1 (final plan32_run)
restore_from-i386_HoldsAt_example =
    restore_from-i386_HoldsAt machine_host machine_view machine_memory KernelRing machine_ring3 1
      sample_layout sample_layout-IsLawful sample_i386_state sample_sections
      sample_i386_state-IsI386State sample_sections-IsSection (machine_in 4) (machine_in 4)
      (machine_in 4) (final plan32_run) 4 0x8049000 refl refl
      (restore_from-i386_example ∙ plan32_run_returns) 0 1 sample_section refl (ground arith)
