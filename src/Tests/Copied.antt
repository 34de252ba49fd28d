-- ===== src/Tests/Copied.antt =====
-- The run of the snapshotter, restored in the emulator.
use process_bridge.Base.{
  [], Outcome, ℕ, All, ◌∷◌, length, returned, arith, length-set, ◌∙◌, ◌≡◌, length-replicate, refl,
  ◌≢◌, get_elem?, ◌<◌, false, ◌-◌, ◌+◌, some, if◌then◌else◌, ◌==◌,
}
use process_bridge.Tests.Machine.{Machine, machine_host, machine_view, machine_memory}
use process_bridge.Tests.Process.{
  process_kernel, sample_lines, dumped, final, scan, nops, process_streams,
  process_kernel-HasStreams, process_kernel-HasMaps, listed_lines, process_kernel-HasListing,
  sample_lines-CanRead, sample_process, dumped_returns,
}
use process_bridge.Tests.Samples.{machine_in, sample_regs, sample_regs-IsX8664Regs}
use process_bridge.Tests.Layout.{sample_layout}
use process_bridge.Loader.X8664
use process_bridge.Snapshotter.Mappings
use process_bridge.Loader.Dump.{
  restore_from, entry_perms, read_state, read_front, read_bytes, load_mappings, load_mapping,
  mapping_size,
}
use process_bridge.Snapshotter.Mappings.Listing.{entries_in}
use process_bridge.Common.MapsEntry.{MapsEntry, maps_entry_of, maps_entry_bytes}
use process_bridge.Snapshotter.Maps.{scanned_entry, create_maps_iter, next, next_of, parse_maps_str}
use process_bridge.Pipeline.Copied.{restore_from-dump_snapshot}
use process_bridge.Pipeline.Sections.{IsEntry}
use process_bridge.Loader.Cpu.{dump_cpu_state}
use process_bridge.Common.X8664.{x8664_regs_of, x8664_regs_bytes}
use process_bridge.Base.Bytes.{word_at, le_value, words_bytes, le_bytes}
use process_bridge.Loader.Check.{pb_uc_check, pb_uc_check_value}
use process_bridge.Loader.Writes.{write_regs}
use process_bridge.Loader.Gdt.{gdt_entry_init}
use process_bridge.Loader.Registers.{reg_eq}
use process_bridge.Base.Text.{same_text, c_string}

abbrev pub listed_entry : MapsEntry
listed_entry = scanned_entry (scan (52 ∷ []) (process_kernel.uninitialised_path))

pub sample_lines-IsEntry :
    All IsEntry (entries_in process_kernel sample_lines (process_kernel.uninitialised_path))
unfolding entries_in scanned_entry
sample_lines-IsEntry = (
  (
    record {
      start_fits = omega arith;
      end_fits = omega arith;
      read_fits = omega arith;
      write_fits = omega arith;
      exec_fits = omega arith;
      shared_fits = omega arith;
      file_offset_fits = omega arith;
      path_size =
          length-set (process_kernel.uninitialised_path) 0 0 ∙ length-replicate {A = ℕ} 4096 0;
    },
    omega arith,
  ),
  tt,
)

abbrev restored : Outcome Machine ℕ
restored =
    restore_from machine_host sample_layout 1 (final dumped).out (length (final dumped).out)
      (machine_in 8)

abbrev pub machine_after : Outcome Machine ℕ → Machine
machine_after (returned a m) = m
machine_after _ = machine_in 0

restored_returns : restored ≡ returned 0x401000 (machine_after restored)
unfolding restore_from read_state read_front read_bytes load_mappings load_mapping mapping_size
    entry_perms dump_cpu_state x8664_regs_of x8664_regs_bytes maps_entry_of maps_entry_bytes word_at
    le_value X8664.dump_x86_64_cpu_state X8664.dump_gdt X8664.dump_regs pb_uc_check write_regs
    pb_uc_check_value words_bytes le_bytes X8664.zero_gdt gdt_entry_init reg_eq
    Mappings.dump_snapshot Mappings.write_snapshot Mappings.dump_mappings_content
    Mappings.dump_entries Mappings.dump_entry Mappings.dump_chunks Mappings.chunk_bytes
    Mappings.read_or_zeros Mappings.is_special same_text c_string create_maps_iter next next_of
    parse_maps_str scanned_entry
restored_returns = refl

pub modes_unlike : machine_host.uc_mode_32 ≢ machine_host.uc_mode_64
modes_unlike e = ground arith

pub first_entry :
    get_elem? (entries_in process_kernel sample_lines (process_kernel.uninitialised_path)) 0
    ≡ some listed_entry
unfolding entries_in
first_entry = refl

pub plain_entry : Mappings.is_special listed_entry.path ≡ false
unfolding Mappings.is_special scanned_entry same_text c_string
plain_entry = refl

pub inside_entry : 2 < listed_entry.end - listed_entry.start
unfolding scanned_entry
inside_entry = omega arith

restore_from-dump_snapshot_example :
    (machine_view.byte 1 (listed_entry.start + 2) (machine_after restored)
      ≡ (if listed_entry.read == 0 then 0 else nops (listed_entry.start + 2)))
    × (machine_view.perms 1 (listed_entry.start + 2) (machine_after restored)
        ≡ some (entry_perms machine_host listed_entry))
restore_from-dump_snapshot_example =
    restore_from-dump_snapshot process_kernel process_streams process_kernel-HasStreams
      process_kernel-HasMaps listed_lines process_kernel-HasListing 7 nops machine_host machine_view
      machine_memory 1 sample_layout sample_lines (λ path from p named opened. refl)
      sample_lines-CanRead sample_lines-IsEntry 2 sample_regs [] 4 sample_process (final dumped)
      sample_regs-IsX8664Regs dumped_returns refl modes_unlike (machine_in 8) (machine_in 8)
      (machine_in 8) (machine_after restored) 4 0x401000 refl refl restored_returns 0 2 listed_entry
      first_entry plain_entry inside_entry
