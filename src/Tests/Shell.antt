-- ===== src/Tests/Shell.antt =====
-- A whole run of the snapshotter on a concrete child.
use process_bridge.Base.{
  [], ◌∷◌, ◌≡◌, List, ℕ, Outcome, false, returned, true, ◌⊎◌, some, map, replicate, ◌++◌, refl,
  none, ◌≤◌, arith,
}
use process_bridge.Snapshotter.Mappings
use process_bridge.Snapshotter.Capture.{create_snapshot}
use process_bridge.Tests.Process.{Process, process_kernel, process_streams, sample_process}
use process_bridge.Tests.Samples.{sample_regs}
use process_bridge.Tests.ElfFile.{sample_phdr, some_bytes, sample_layout32, sample_layout64}
use process_bridge.Snapshotter.Main.{
  Shell, main, child_args, snapshot_child, run_to_snapshot, copy_args, until_null, store_arg,
  fresh_array,
}
use process_bridge.Snapshotter.Main.Written.{HasShell}
use process_bridge.Snapshotter.Main.Argv.{child_args-eq-map}
use process_bridge.Snapshotter.Breakpoint.{
  Tracer, stop_signal, fork_child, parent_side, checked, stopped_only, create_breakpoint,
  execute_up_to_breakpoint, exit_if, disarm, step_past,
}
use process_bridge.Snapshotter.ProcessInfo.{
  ElfInfo, get_image_base_via_elf_info, is_pie, elf_class_64, pie_base, get_min_vaddr,
  min_vaddr_from, get_image_base, min_start_from, open_elf, detect_elf_class, class_of,
}
use process_bridge.Snapshotter.Elf.{HasFile, Elf}
use process_bridge.Snapshotter.ProcessInfo.ImageBase.{IsLoadedAt}
use process_bridge.Snapshotter.ProcessInfo.Lowest.{get_image_base_via_elf_info-IsLoadedAt}
use process_bridge.Snapshotter.ProcessInfo.Segments.{phdr_at, LoadsAt}
use process_bridge.Base.Bytes.{word_at, le_value}
use process_bridge.Base.Text.{same_text, c_string}
use process_bridge.Snapshotter.Maps.{create_maps_iter, next, next_of, parse_maps_str, scanned_entry}

abbrev pub child_tracer : Tracer Process
child_tracer = record {
  peek_text = λ pid addr p. (some 0x4889e5, p);
  poke_text = λ pid addr word p. (true, p);
  get_regs = λ pid p. (some sample_regs, p);
  set_regs = λ pid regs p. (true, p);
  single_step = λ pid p. (true, p);
  cont = λ pid p. (true, p);
  waitpid = λ pid p. (some (stop_signal 5), p);
  fork = λ p. (some 7, p);
  trace_me = λ p. (true, p);
  execve = λ path argv p. p;
}

-- Every read gives the magic bytes, the class and, at 16, the type; other bytes are 0.
abbrev pub elf_of_type : ℕ → Elf Process
elf_of_type type = record {
  ei_nident = 16;
  ei_class = 4;
  elf_magic = 127 ∷ 69 ∷ 76 ∷ 70 ∷ [];
  elfclass32 = 1;
  elfclass64 = 2;
  et_exec = 2;
  et_dyn = 3;
  pt_load = 1;
  layout32 = sample_layout32;
  layout64 = sample_layout64;
  fseek = λ file offset p. (true, p);
  fread = λ file size p.
      (some (127 ∷ 69 ∷ 76 ∷ 70 ∷ 2 ∷ (replicate 11 0 ++ (type ∷ replicate 47 0))), p);
  rewind = λ file p. p;
  fileno = λ file p. (some 5, p);
  fd_link = λ fd. [];
  readlink = λ path size p. (some [], p);
}

-- The text "0x1000" is not read: the offset is always 4096.
abbrev pub shell : Shell Process
shell = record {
  strtoull =
      λ text. record { value = 0x1000; out_of_range = false; whole = true; any_digit = true };
  kill = λ pid p. p;
  held = λ i. some (i ∷ []);
}

pub shell-HasShell : HasShell process_kernel process_streams child_tracer (elf_of_type 2) shell
shell-HasShell = record { kill_keeps = λ file pid p. refl; waitpid_keeps = λ file pid p. refl }

abbrev pub command_line : List (List ℕ)
command_line = (112 ∷ []) ∷ (49 ∷ []) ∷ (99 ∷ []) ∷ (97 ∷ []) ∷ []

abbrev pub ended : Outcome Process ℕ
ended = main process_kernel child_tracer (elf_of_type 2) shell 2 command_line sample_process

abbrev pub success : ℕ
success = 0

abbrev pub left : Outcome Process ℕ → Process
left (returned code p) = p
left _ = sample_process

pub main_returns : ended ≡ returned success (left ended)
unfolding main snapshot_child run_to_snapshot store_arg fresh_array copy_args child_args until_null
    fork_child parent_side stopped_only get_image_base open_elf detect_elf_class class_of same_text
    get_image_base_via_elf_info is_pie word_at le_value create_breakpoint checked
    execute_up_to_breakpoint exit_if disarm step_past create_snapshot Mappings.dump_snapshot
    Mappings.write_snapshot Mappings.dump_mappings_content Mappings.dump_entries Mappings.dump_entry
    Mappings.dump_chunks Mappings.chunk_bytes Mappings.read_or_zeros Mappings.is_special c_string
    create_maps_iter next next_of parse_maps_str scanned_entry
main_returns = refl

child_args-eq-map_example :
    child_args shell.held command_line sample_process
    ≡ returned (map some ((99 ∷ []) ∷ (97 ∷ []) ∷ []) ++ none ∷ []) sample_process
child_args-eq-map_example =
    child_args-eq-map shell.held (112 ∷ []) (49 ∷ []) (99 ∷ []) ((97 ∷ []) ∷ []) sample_process

abbrev pie_info : ElfInfo
pie_info = record {
  class = elf_class_64;
  ehdr = record { e_type = 3; e_phoff = 64; e_phentsize = 56; e_phnum = 1 };
  path = 0 ∷ [];
  pid = 7;
  file = 3;
}

-- Every program header is of a segment that is loaded at 0x1000.
abbrev loaded_bytes : List ℕ
loaded_bytes = sample_phdr 1 0x1000

abbrev loaded_elf : Elf Process
loaded_elf = record (elf_of_type 3) { fread = λ file size p. (some loaded_bytes, p) }

abbrev loaded_content : ℕ → ℕ → ℕ → List ℕ
loaded_content file offset size = loaded_bytes

loaded_elf-HasFile : HasFile loaded_elf loaded_content
loaded_elf-HasFile = record { read_at = λ file offset size bytes p sought h. some_bytes h }

abbrev based : Outcome Process ℕ
based = get_image_base_via_elf_info process_kernel loaded_elf 2 pie_info sample_process

abbrev sample_base : ℕ
sample_base = 0x400000

base_found : based ≡ returned sample_base (left based)
unfolding get_image_base_via_elf_info is_pie pie_base get_min_vaddr min_vaddr_from word_at le_value
    min_start_from same_text c_string create_maps_iter next next_of parse_maps_str scanned_entry
base_found = refl

type_loaded : (phdr_at loaded_elf loaded_content pie_info 0).p_type ≡ 1
unfolding word_at le_value
type_loaded = refl

address_loaded : (phdr_at loaded_elf loaded_content pie_info 0).p_vaddr ≡ 0x1000
unfolding word_at le_value
address_loaded = refl

get_image_base_via_elf_info-IsLoadedAt_example :
    ((pie_info.ehdr.e_type ≡ 2) × (sample_base ≡ 0) × (left based ≡ sample_process))
    ⊎ ((pie_info.ehdr.e_type ≡ 3)
        × (at : IsLoadedAt process_kernel loaded_elf 2 pie_info sample_process
            (left based)
            sample_base)
        × (at.min_vaddr ≤ (phdr_at loaded_elf loaded_content pie_info 0).p_vaddr)
        × LoadsAt loaded_elf loaded_content pie_info 0 1 at.min_vaddr)
get_image_base_via_elf_info-IsLoadedAt_example =
    get_image_base_via_elf_info-IsLoadedAt process_kernel loaded_elf loaded_content
      loaded_elf-HasFile 2 pie_info sample_base 0 sample_process (left based) base_found
      (omega arith) type_loaded (omega (arith, address_loaded))
