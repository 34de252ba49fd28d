-- ===== src/Tests/Copied32.antt =====
-- The run of the i386 snapshotter, restored in the emulator.
use process_bridge.Snapshotter.Mappings
use process_bridge.Loader.I386
use process_bridge.Snapshotter.Mappings.I386.Narrow.{HasMaps32, write_snapshot32-eq}
use process_bridge.Base.{
  [], Outcome, List, ◌≡◌, ℕ, length, ◌++◌, ◌>>◌, returned, subst, sym, ◌+◌, if◌then◌else◌, ◌==◌,
  some, refl, ◌∙◌, arith,
}
use process_bridge.Loader.Check.{pb_uc_check, pb_uc_check_value}
use process_bridge.Tests.Process.{
  final, Process, process_kernel, nops, sample_process, sample_lines, process_streams,
  process_kernel-HasStreams, process_kernel-HasMaps, listed_lines, process_kernel-HasListing,
  sample_lines-CanRead,
}
use process_bridge.Loader.Registers.Saved32.{saved32}
use process_bridge.Loader.Dump.{restore_from, load_mapping, mapping_size, entry_perms}
use process_bridge.Base.Text.{same_text, c_string}
use process_bridge.Tests.Machine.{
  Machine, machine_host, machine_view, machine_registers, machine_memory,
}
use process_bridge.Common.Snapshot.{Section, sections_bytes}
use process_bridge.Loader.Writes.{write_regs}
use process_bridge.Tests.Samples.{sample_i386_state, machine_in, sample_i386_state-IsI386State}
use process_bridge.Tests.Layout.{sample_layout, sample_layout-IsLawful}
use process_bridge.Pipeline.Sections.{
  sections_of, write_snapshot-sections_of, sections_of-IsSection,
}
use process_bridge.Snapshotter.Maps.{create_maps_iter, next, next_of, parse_maps_str, scanned_entry}
use process_bridge.Common.I386State.{i386_state_bytes}
use process_bridge.Base.Bytes.{words_bytes, le_bytes, le_value}
use process_bridge.Loader.Dump.Sections.{load_sections}
use process_bridge.Loader.Host.{esp}
use process_bridge.Snapshotter.Mappings.Listing.{entries_in}
use process_bridge.Loader.X8664.{zero_gdt}
use process_bridge.Tests.Copied.{
  machine_after, listed_entry, sample_lines-IsEntry, first_entry, plain_entry, inside_entry,
}
use process_bridge.Loader.Gdt.{gdt_entry_init, user_desc_to_real_desc}
use process_bridge.Pipeline.Resumed.{restore_from-dump_snapshot-saved32}
use process_bridge.Loader.Registers.{reg_eq}
use process_bridge.Loader.Dump.Restore.{restore_from-i386}
use process_bridge.Pipeline.Copied32.{restore_from-dump_snapshot_i386}
use process_bridge.Tests.Ring3.{KernelRing, machine_ring3}
use process_bridge.Tests.Restore32.{
  sample_i386-IsUserFrame, general-AreFitting, segments-AreFitting,
}

abbrev dumped32 : Outcome Process (Unit {0})
dumped32 =
    Mappings.I386.dump_snapshot process_kernel sample_layout 2 sample_i386_state 7 [] sample_process

dumped32_returns : dumped32 ≡ returned tt (final dumped32)
unfolding Mappings.I386.dump_snapshot Mappings.I386.write_snapshot32
    Mappings.I386.dump_mappings_content32 Mappings.I386.dump_entries32 Mappings.I386.dump_entry32
    Mappings.I386.dump_chunks32 Mappings.chunk_bytes Mappings.read_or_zeros Mappings.is_special
    same_text c_string create_maps_iter next next_of parse_maps_str scanned_entry
dumped32_returns = refl

abbrev written_sections : List Section
written_sections =
    sections_of nops (entries_in process_kernel sample_lines (process_kernel.uninitialised_path))

process_kernel-HasMaps32 : HasMaps32 process_kernel
process_kernel-HasMaps32 = record {
  ordered = λ text path h. omega arith;
  narrow = λ text path h. omega arith;
}

written_file :
    (final dumped32).out
    ≡ i386_state_bytes sample_layout sample_i386_state ++ sections_bytes written_sections
unfolding Mappings.I386.dump_snapshot
written_file =
    write_snapshot-sections_of process_kernel process_streams process_kernel-HasStreams
      process_kernel-HasMaps listed_lines process_kernel-HasListing 7 nops sample_lines
      (λ path from p named opened. refl) sample_lines-CanRead 2
      (i386_state_bytes sample_layout sample_i386_state) [] 4 sample_process (final dumped32)
      (sym (
          write_snapshot32-eq process_kernel process_kernel-HasMaps32 2
            (i386_state_bytes sample_layout sample_i386_state) 7 [] sample_process)
        ∙ dumped32_returns)
      refl

abbrev plan : Outcome Machine ℕ
plan =
    (load_sections machine_host 1 written_sections
        >> I386.dump_i386_cpu_state machine_host 1 sample_i386_state)
      (machine_in 4)

plan_returns : plan ≡ returned 0x8049000 (machine_after plan)
unfolding I386.dump_i386_cpu_state I386.dump_gdt I386.dump_regs pb_uc_check write_regs
    pb_uc_check_value words_bytes le_bytes zero_gdt gdt_entry_init reg_eq I386.enter_ring3
    I386.gdt_store I386.store_tls I386.data_desc_for user_desc_to_real_desc le_value load_sections
    load_mapping mapping_size entry_perms sections_of entries_in scanned_entry Mappings.is_special
    same_text c_string
plan_returns = refl

restored32_returns :
    restore_from machine_host sample_layout 1
      (final dumped32).out
      (length (final dumped32).out)
      (machine_in 4)
    ≡ returned 0x8049000 (machine_after plan)
restored32_returns =
    subst
      (λ (c : List ℕ).
        restore_from machine_host sample_layout 1 c (length c) (machine_in 4)
        ≡ returned 0x8049000 (machine_after plan))
      (sym written_file)
      (restore_from-i386 machine_host sample_layout 1 sample_i386_state written_sections
          sample_layout-IsLawful sample_i386_state-IsI386State
          (sections_of-IsSection nops _ sample_lines-IsEntry) (machine_in 4) (machine_in 4)
          (machine_in 4) 4 refl refl
        ∙ plan_returns)

restore_from-dump_snapshot_i386_example :
    (machine_view.byte 1 (listed_entry.start + 2) (machine_after plan)
      ≡ (if listed_entry.read == 0 then 0 else nops (listed_entry.start + 2)))
    × (machine_view.perms 1 (listed_entry.start + 2) (machine_after plan)
        ≡ some (entry_perms machine_host listed_entry))
restore_from-dump_snapshot_i386_example =
    restore_from-dump_snapshot_i386 process_kernel process_streams process_kernel-HasStreams
      process_kernel-HasMaps process_kernel-HasMaps32 listed_lines process_kernel-HasListing 7 nops
      machine_host machine_view machine_memory KernelRing machine_ring3 1 sample_layout
      sample_layout-IsLawful sample_lines (λ path from p named opened. refl) sample_lines-CanRead
      sample_lines-IsEntry 2 sample_i386_state [] 4 sample_process (final dumped32)
      sample_i386_state-IsI386State dumped32_returns refl (machine_in 4) (machine_in 4)
      (machine_in 4) (machine_after plan) 4 0x8049000 refl refl restored32_returns 0 2 listed_entry
      first_entry plain_entry inside_entry

restore_from-dump_snapshot-saved32_example :
    (0x8049000 ≡ sample_i386_state.regs.eip)
    × (machine_view.reg 1 esp (machine_after plan) ≡ 0x7ff0)
unfolding saved32
restore_from-dump_snapshot-saved32_example =
    restore_from-dump_snapshot-saved32 process_kernel process_streams process_kernel-HasStreams
      process_kernel-HasMaps 7 2 [] 4 sample_process (final dumped32) machine_host machine_view
      machine_registers 1 sample_layout machine_memory KernelRing machine_ring3
      sample_layout-IsLawful sample_i386_state sample_i386_state-IsI386State sample_i386-IsUserFrame
      general-AreFitting segments-AreFitting dumped32_returns refl (machine_in 4) (machine_in 4)
      (machine_in 4) (machine_after plan) 4 0x8049000 refl refl refl restored32_returns esp 0x7ff0
      refl
