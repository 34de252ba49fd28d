-- ===== src/Tests/Process.antt =====
-- A concrete process and file system with which the snapshotter can be run.
use process_bridge.Base.Text.{same_text, c_string}
use process_bridge.Base.{
  refl, ◌≡◌, ℕ, List, some, length-replicate, returned, ◌∷◌, Outcome, [], length, arith, ◌<◌, true,
  All, ◌++◌, replicate, ◌≢◌, Ends, ◌>>◌, suc, ap, ◌+◌, zero,
}
use process_bridge.Snapshotter.Kernel.{
  Kernel, Scan, Streams, HasStreams, HasMaps, HasLines, Line, line, end_of_file,
}
use process_bridge.Snapshotter.Mappings
use process_bridge.Loader.X8664
use process_bridge.Snapshotter.Mappings.Termination.{dump_entries-Ends}
use process_bridge.Snapshotter.Maps.{create_maps_iter, next, next_of, parse_maps_str, scanned_entry}
use process_bridge.Tests.Samples.{sample_regs, sample_regs-IsX8664Regs, machine_in}
use process_bridge.Tests.Layout.{sample_layout}
use process_bridge.Tests.Machine.{machine_host}
use process_bridge.Pipeline.{dump_snapshot-restore_from}
use process_bridge.Common.Snapshot.{Section, IsSection}
use process_bridge.Common.X8664.{x8664_regs_bytes}
use process_bridge.Loader.Dump.{restore_from}
use process_bridge.Loader.Dump.Sections.{load_sections}
use process_bridge.Snapshotter.Mappings.Memory.{bytes_from, CanRead}
use process_bridge.Common.MapsEntry.{MapsEntry}
use process_bridge.Snapshotter.Mappings.Listing.{all_bytes, entries_in, HasListing}
use process_bridge.Snapshotter.Mappings.Whole.{dump_snapshot-all_bytes}

-- The lines that are left of /proc/<pid>/maps, and the file.
pub record Process : Type 0 where
  pub lines : List (List ℕ)
  pub out : List ℕ

abbrev take_line : Process → Line × Process
take_line p = elim p.lines [
  | [] ↦ (end_of_file, p)
  | text ∷ lines ↦ (line text, record { lines = lines; out = p.out })
]

-- Every line is `401000-402000 r-xp 1000`, with no path.
abbrev pub scan : List ℕ → List ℕ → Scan
scan text path = record {
  count = 4;
  start = 0x401000;
  end = 0x402000;
  perms = 114 ∷ 45 ∷ 120 ∷ 112 ∷ 0 ∷ [];
  file_offset = 0x1000;
  path = path;
}

-- One line, "4".
abbrev pub sample_lines : List (List ℕ)
sample_lines = (52 ∷ []) ∷ []

abbrev pub process_kernel : Kernel
process_kernel = record {
  World = Process;
  snprintf_maps = λ pid. some [];
  sscanf_maps = scan;
  fopen_rb = λ path p. (some 3, record { lines = sample_lines; out = p.out });
  fopen_wb = λ path p. (some 4, record { lines = p.lines; out = [] });
  fclose = λ file p. (true, p);
  getline = λ file p. take_line p;
  fwrite = λ file bytes p. (true, record { lines = p.lines; out = p.out ++ bytes });
  fflush = λ file p. (true, p);
  malloc = λ size p. (true, p);
  process_vm_readv = λ pid address size p. (some (replicate size 0x90), p);
  uninitialised_path = replicate 4096 0;
}

abbrev pub process_streams : Streams process_kernel
process_streams = record { contents = λ file p. p.out; lines_left = λ file p. length p.lines }

take_line_keeps : (p : Process) → (take_line p).1.out ≡ p.out
take_line_keeps p = kept p.lines p.out
  where
    kept :
        (ls : List (List ℕ)) (out : List ℕ)
        → (take_line (record { lines = ls; out = out })).1.out ≡ out
    kept [] out = refl
    kept (text ∷ ls) out = refl

pub process_kernel-HasStreams : HasStreams process_kernel process_streams
process_kernel-HasStreams = record {
  fwrite_adds = λ file bytes p h. refl;
  fflush_keeps = λ file p. refl;
  fopen_rb_keeps = λ file path p. refl;
  fopen_wb_empties = λ file path p h. refl;
  getline_keeps = λ file from p. take_line_keeps p;
  fclose_keeps = λ file from p. refl;
  malloc_keeps = λ file size p. refl;
  readv_keeps = λ file pid address size p. refl;
}

pub process_kernel-HasMaps : HasMaps process_kernel
process_kernel-HasMaps = record {
  uninitialised_size = length-replicate {A = ℕ} 4096 0;
  scanned = λ text path size h. record {
    start_fits = omega arith;
    end_fits = omega arith;
    ordered = omega arith;
    file_offset_fits = omega arith;
    path_size = size;
  };
}

pub process_kernel-HasLines : HasLines process_kernel process_streams
process_kernel-HasLines = record {
  getline_takes = λ from text p h. taken p.lines p.out text h;
  fwrite_lines = λ from file bytes p. omega arith;
  readv_lines = λ from pid address size p. omega arith;
}
  where
    taken :
        (ls : List (List ℕ)) (out text : List ℕ)
        → (take_line (record { lines = ls; out = out })).0 ≡ line text
        → length (take_line (record { lines = ls; out = out })).1.lines < length ls
    taken [] out text h = cc
    taken (first ∷ ls) out text h = omega arith

abbrev pub sample_process : Process
sample_process = record { lines = sample_lines; out = [] }

abbrev pub dumped : Outcome Process (Unit {0})
dumped = Mappings.dump_snapshot process_kernel 2 sample_regs 7 [] sample_process

abbrev pub final : Outcome Process (Unit {0}) → Process
final (returned a p) = p
final _ = sample_process

pub dumped_returns : dumped ≡ returned tt (final dumped)
unfolding Mappings.dump_snapshot Mappings.write_snapshot Mappings.dump_mappings_content
    Mappings.dump_entries Mappings.dump_entry Mappings.dump_chunks Mappings.chunk_bytes
    Mappings.read_or_zeros Mappings.is_special same_text c_string create_maps_iter next next_of
    parse_maps_str scanned_entry
dumped_returns = refl

dump_entries-Ends_example :
    Ends
      (Mappings.dump_entries process_kernel 2 7 4 (record { file = 3; path = [] }) sample_process)
dump_entries-Ends_example =
    dump_entries-Ends process_kernel process_streams process_kernel-HasLines 2 7 4
      (record { file = 3; path = [] }) sample_process (ground arith)

modes_differ : machine_host.uc_mode_32 ≢ machine_host.uc_mode_64
modes_differ e = ground arith

dump_snapshot-restore_from_example :
    (file : ℕ) × (ss : List Section) × (process_kernel.fopen_wb [] sample_process).0 ≡ some file
    × All IsSection ss
    × (restore_from machine_host sample_layout 1
          (final dumped).out
          (length (final dumped).out)
          (machine_in 8)
        ≡ (load_sections machine_host 1 ss
              >> X8664.dump_x86_64_cpu_state machine_host 1 sample_regs)
            (machine_in 8))
dump_snapshot-restore_from_example =
    dump_snapshot-restore_from process_kernel process_streams process_kernel-HasStreams
      process_kernel-HasMaps 2 sample_regs 7 [] sample_process (final dumped)
      sample_regs-IsX8664Regs dumped_returns machine_host sample_layout 1 modes_differ
      (machine_in 8) (machine_in 8) (machine_in 8) 4 refl refl

abbrev pub nops : ℕ → ℕ
nops address = 0x90

pub nops_read : (a n : ℕ) → replicate n 0x90 ≡ bytes_from nops a n
unfolding bytes_from
nops_read a zero = refl
nops_read a (suc n) = ap (λ bs. 0x90 ∷ bs) (nops_read (a + 1) n)

abbrev pub listed_lines : ℕ → Process → List (List ℕ)
listed_lines file p = p.lines

pub process_kernel-HasListing : HasListing process_kernel listed_lines
process_kernel-HasListing = record {
  getline_line = λ from text p h. first p.lines p.out text h;
  getline_end = λ from p h. last p.lines p.out h;
  fwrite_left = λ from file bytes p. refl;
  readv_left = λ from pid address size p. refl;
  malloc_left = λ from size p. refl;
}
  where
    first :
        (ls : List (List ℕ)) (out text : List ℕ)
        → (take_line (record { lines = ls; out = out })).0 ≡ line text
        → ls ≡ text ∷ (take_line (record { lines = ls; out = out })).1.lines
    first [] out text h = cc
    first (t ∷ ls) out text h = cc

    last :
        (ls : List (List ℕ)) (out : List ℕ)
        → (take_line (record { lines = ls; out = out })).0 ≡ end_of_file
        → ls ≡ []
    last [] out h = refl
    last (t ∷ ls) out h = cc

every-CanRead : (e : MapsEntry) → CanRead process_kernel 7 nops e
every-CanRead e plain a n p readable low high = ap some (nops_read a n)

pub sample_lines-CanRead :
    All
      (CanRead process_kernel 7 nops)
      (entries_in process_kernel sample_lines (process_kernel.uninitialised_path))
unfolding entries_in
sample_lines-CanRead =
    (every-CanRead (scanned_entry (scan (52 ∷ []) (process_kernel.uninitialised_path))), tt)

dump_snapshot-all_bytes_example :
    (file : ℕ) × ((process_kernel.fopen_wb [] sample_process).0 ≡ some file)
    × ((final dumped).out
        ≡ x8664_regs_bytes sample_regs
          ++ all_bytes nops
              (entries_in process_kernel sample_lines (process_kernel.uninitialised_path)))
dump_snapshot-all_bytes_example =
    dump_snapshot-all_bytes process_kernel process_streams process_kernel-HasStreams
      process_kernel-HasMaps listed_lines process_kernel-HasListing 7 nops sample_lines
      (λ path from p named opened. refl) sample_lines-CanRead 2 sample_regs [] sample_process
      (final dumped) dumped_returns
