-- ===== src/Tests/Paged.antt =====
-- The page that the snapshotter writes, restored to the end.
use process_bridge.Base.{
  [], List, ℕ, length, ◌≡◌, returned, refl, All, inr, arith, ap, ◌%◌, ◌++◌, IsDefined, ◌∷◌, false,
}
use process_bridge.Tests.Process.{
  final, nops, dumped, process_kernel, sample_lines, listed_lines, process_streams,
  process_kernel-HasStreams, process_kernel-HasMaps, process_kernel-HasListing,
  sample_lines-CanRead, sample_process, dumped_returns,
}
use process_bridge.Loader.Engine.Progress.{IsFree, AreApart, AreFree, AreOutside, IsPagedSection}
use process_bridge.Pipeline.Sections.{sections_of, sections_in, length-range_bytes}
use process_bridge.Loader.Dump.{restore_from}
use process_bridge.Common.Snapshot.{Section}
use process_bridge.Tests.Machine.{machine_host, machine_view, machine_memory, machine_progress}
use process_bridge.Snapshotter.Mappings.Listing.{entries_in}
use process_bridge.Snapshotter.Mappings.Memory.{range_bytes}
use process_bridge.Snapshotter.Maps.{scanned_entry}
use process_bridge.Tests.Samples.{machine_in, sample_regs, sample_regs-IsX8664Regs}
use process_bridge.Tests.Layout.{sample_layout}
use process_bridge.Snapshotter.Mappings.{is_special}
use process_bridge.Loader.Gdt.{pb_gdt_addr, pb_gdt_size}
use process_bridge.Base.Text.{same_text, c_string}
use process_bridge.Loader.Dump.Bounds.{restore_guarded, restore_from-restore_guarded}
use process_bridge.Pipeline.Live.{restore_from-dump_snapshot_returned}
use process_bridge.Tests.Copied.{sample_lines-IsEntry}
use process_bridge.Tests.Live.{sample_regs-IsUserSelectors, codes_differ, sample_regs-AreTaken}
use process_bridge.Tests.Restore.{sample_file}
use process_bridge.Common.X8664.{x8664_regs_bytes}
use process_bridge.Loader.Dump.Logged.{restore_logged, restore_logged-IsDefined}

abbrev listed_sections : List Section
listed_sections = sections_in process_kernel nops sample_lines

listed_size : (address : ℕ) → length (range_bytes nops 1 address 4096) ≡ 4096
listed_size address = length-range_bytes nops 1 address 4096

listed-IsPagedSection : All IsPagedSection listed_sections
unfolding sections_of entries_in scanned_entry is_special same_text c_string
listed-IsPagedSection = (
  record {
    some_page = omega (arith, listed_size 0x401000);
    start_aligned = refl;
    size_aligned = ap (λ n. n % 0x1000) (listed_size 0x401000);
    range_fits = omega (arith, listed_size 0x401000);
  },
  tt,
)

listed-AreApart : AreApart listed_sections
unfolding sections_of entries_in scanned_entry is_special same_text c_string
listed-AreApart = (tt, tt)

listed-AreOutside : AreOutside pb_gdt_addr pb_gdt_size listed_sections
unfolding sections_of entries_in scanned_entry is_special same_text c_string
listed-AreOutside = (inr (omega arith), tt)

listed-AreFree : AreFree machine_host machine_view 1 listed_sections (machine_in 8)
unfolding sections_of entries_in scanned_entry is_special same_text c_string
listed-AreFree = ((λ x inner. refl), tt)

table-IsFree : IsFree machine_host machine_view 1 pb_gdt_addr pb_gdt_size (machine_in 8)
table-IsFree x inner = refl

restore_from-dump_snapshot_returned_example :
    (entry : ℕ) × (w' : machine_host.World) × (restore_from machine_host sample_layout 1
        (final dumped).out
        (length (final dumped).out)
        (machine_in 8)
      ≡ returned entry w')
restore_from-dump_snapshot_returned_example =
    restore_from-dump_snapshot_returned process_kernel process_streams process_kernel-HasStreams
      process_kernel-HasMaps listed_lines process_kernel-HasListing 7 nops machine_host machine_view
      machine_memory machine_progress 1 sample_layout sample_lines
      (λ path from p named opened. refl) sample_lines-CanRead sample_lines-IsEntry 2 sample_regs []
      4 sample_process (final dumped) sample_regs-IsX8664Regs sample_regs-IsUserSelectors
      sample_regs-AreTaken dumped_returns refl listed-IsPagedSection listed-AreApart
      listed-AreOutside codes_differ (machine_in 8) (machine_in 8) (machine_in 8) 4 refl refl
      listed-AreFree table-IsFree

restore_from-restore_guarded_example :
    restore_from machine_host sample_layout 1 sample_file (length sample_file) (machine_in 8)
    ≡ restore_guarded machine_host 1 sample_layout sample_file (length sample_file) (machine_in 8)
restore_from-restore_guarded_example =
    restore_from-restore_guarded machine_host 1 sample_layout sample_file (machine_in 8)

-- A file that is cut behind the first byte of a header.
abbrev cut_file : List ℕ
cut_file = x8664_regs_bytes sample_regs ++ 1 ∷ []

restore_logged-IsDefined_example :
    IsDefined
      (restore_logged machine_host 1 false sample_layout cut_file (length cut_file) (machine_in 8))
restore_logged-IsDefined_example =
    restore_logged-IsDefined machine_host 1 sample_layout cut_file codes_differ (machine_in 8)
      (machine_in 8) (machine_in 8) 4 refl refl
