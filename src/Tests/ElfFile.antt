-- ===== src/Tests/ElfFile.antt =====
-- A small ELF file, read where the stream stands.
use process_bridge.Base.{
  [], ℕ, ◌≤◌, List, some, ◌∷◌, replicate, take, drop, true, ◌≡◌, ◌++◌, ◌+◌, returned, ◌%◌, refl,
  arith, ◌/◌,
}
use process_bridge.Snapshotter.Elf.{Elf, ElfLayout, HasFile}
use process_bridge.Snapshotter.ProcessInfo.{
  get_min_vaddr, detect_elf_class, ElfInfo, class_of, elf_class_64, min_vaddr_from,
}
use process_bridge.Base.Bytes.{word_at, le_value}
use process_bridge.Snapshotter.ProcessInfo.Class.{IsElf, detect_elf_class-IsElf}
use process_bridge.Base.Text.{same_text}
use process_bridge.Snapshotter.ProcessInfo.Segments.{phdr_at, LoadsAt, get_min_vaddr-lowest}

-- `Elf64_Ehdr` and `Elf64_Phdr`, and `Elf32_Ehdr` and `Elf32_Phdr`.
abbrev pub sample_layout64 : ElfLayout
sample_layout64 = record {
  ehdr_size = 64;
  ehdr_of = λ b. record {
    e_type = word_at 2 16 b;
    e_phoff = word_at 8 32 b;
    e_phentsize = word_at 2 54 b;
    e_phnum = word_at 2 56 b;
  };
  phdr_size = 56;
  phdr_of = λ b. record { p_type = word_at 4 0 b; p_vaddr = word_at 8 16 b };
}

abbrev pub sample_layout32 : ElfLayout
sample_layout32 = record {
  ehdr_size = 52;
  ehdr_of = λ b. record {
    e_type = word_at 2 16 b;
    e_phoff = word_at 4 28 b;
    e_phentsize = word_at 2 42 b;
    e_phnum = word_at 2 44 b;
  };
  phdr_size = 32;
  phdr_of = λ b. record { p_type = word_at 4 0 b; p_vaddr = word_at 4 8 b };
}

abbrev zeros : ℕ → List ℕ
zeros n = replicate n 0

-- A program header of a type, with an address below 65536.
abbrev pub sample_phdr : ℕ → ℕ → List ℕ
sample_phdr type vaddr =
    type ∷ 0 ∷ 0 ∷ 0 ∷ 0 ∷ 0 ∷ 0 ∷ 0 ∷ (zeros 8 ++ (vaddr % 256 ∷ vaddr / 256 ∷ zeros 38))

-- The identification, a note, and two segments that are loaded.
abbrev elf_bytes : List ℕ
elf_bytes =
    127
    ∷ 69
    ∷ 76
    ∷ 70
    ∷ 2
    ∷ (zeros 11 ++ (sample_phdr 4 0x10 ++ (sample_phdr 1 0x2000 ++ sample_phdr 1 0x1000)))

abbrev read_at_offset : ℕ → ℕ → ℕ → List ℕ
read_at_offset file offset size = take size (drop offset elf_bytes)

-- The world is the place of the stream.
abbrev elf_reader : Elf ℕ
elf_reader = record {
  ei_nident = 16;
  ei_class = 4;
  elf_magic = 127 ∷ 69 ∷ 76 ∷ 70 ∷ [];
  elfclass32 = 1;
  elfclass64 = 2;
  et_exec = 2;
  et_dyn = 3;
  pt_load = 1;
  layout32 = sample_layout32;
  layout64 = sample_layout64;
  fseek = λ file offset place. (true, offset);
  fread = λ file size place. (some (read_at_offset file place size), place + size);
  rewind = λ file place. 0;
  fileno = λ file place. (some 3, place);
  fd_link = λ fd. [];
  readlink = λ path size place. (some [], place);
}

pub some_bytes : {a b : List ℕ} → some a ≡ some b → b ≡ a
some_bytes h = cc

elf_reader-HasFile : HasFile elf_reader read_at_offset
elf_reader-HasFile = record { read_at = λ file offset size bytes place sought h. some_bytes h }

abbrev sample_info : ElfInfo
sample_info = record {
  class = elf_class_64;
  ehdr = record { e_type = 3; e_phoff = 16; e_phentsize = 56; e_phnum = 3 };
  path = [];
  pid = 7;
  file = 3;
}

class_detected : detect_elf_class elf_reader 3 5 ≡ returned elf_class_64 16
unfolding detect_elf_class class_of same_text
class_detected = refl

lowest_found : get_min_vaddr elf_reader sample_info 0 ≡ returned 0x1000 184
unfolding get_min_vaddr min_vaddr_from word_at le_value
lowest_found = refl

type_of_second : (phdr_at elf_reader read_at_offset sample_info 1).p_type ≡ 1
unfolding word_at le_value
type_of_second = refl

address_of_second : (phdr_at elf_reader read_at_offset sample_info 1).p_vaddr ≡ 0x2000
unfolding word_at le_value
address_of_second = refl

detect_elf_class-IsElf_example : IsElf elf_reader (read_at_offset 3 0 16) elf_class_64
detect_elf_class-IsElf_example =
    detect_elf_class-IsElf elf_reader read_at_offset elf_reader-HasFile 3 elf_class_64 5 16
      class_detected

get_min_vaddr-lowest_example :
    (0x1000 ≤ (phdr_at elf_reader read_at_offset sample_info 1).p_vaddr)
    × LoadsAt elf_reader read_at_offset sample_info 0 3 0x1000
get_min_vaddr-lowest_example =
    get_min_vaddr-lowest elf_reader read_at_offset elf_reader-HasFile sample_info 0x1000 1 0 184
      lowest_found (omega arith) type_of_second (omega (arith, address_of_second))
