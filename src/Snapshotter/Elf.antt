-- ===== src/Snapshotter/Elf.antt =====
-- What the reading of an ELF file takes from <elf.h> and from the C library.
use process_bridge.Base.{ℕ, Option, List, Bool, ◌≡◌, true, some}

-- The fields that are used of `Elf32_Ehdr` or `Elf64_Ehdr`.
pub record Ehdr : Type 0 where
  pub e_type : ℕ
  pub e_phoff : ℕ
  pub e_phentsize : ℕ
  pub e_phnum : ℕ

-- Those of `Elf32_Phdr` or `Elf64_Phdr`.
pub record Phdr : Type 0 where
  pub p_type : ℕ
  pub p_vaddr : ℕ

-- The layout of the structs of one class.
pub record ElfLayout : Type 0 where
  pub ehdr_size : ℕ
  pub ehdr_of : List ℕ → Ehdr
  pub phdr_size : ℕ
  pub phdr_of : List ℕ → Phdr

-- The constants and layouts of <elf.h>, and the calls on a stream. `fread` gives the bytes where it
-- read as many as were asked for; an offset is its 64-bit pattern; `fd_link` is the path
-- /proc/self/fd/<fd>.
pub record Elf (W : Type 0) : Type 0 where
  pub ei_nident : ℕ
  pub ei_class : ℕ
  pub elf_magic : List ℕ
  pub elfclass32 : ℕ
  pub elfclass64 : ℕ
  pub et_exec : ℕ
  pub et_dyn : ℕ
  pub pt_load : ℕ
  pub layout32 : ElfLayout
  pub layout64 : ElfLayout
  pub fseek : ℕ → ℕ → W → Bool × W
  pub fread : ℕ → ℕ → W → Option (List ℕ) × W
  pub rewind : ℕ → W → W
  pub fileno : ℕ → W → Option ℕ × W
  pub fd_link : ℕ → List ℕ
  pub readlink : List ℕ → ℕ → W → Option (List ℕ) × W

-- A read behind a seek gives the bytes of the file at that offset.
pub record HasFile {W : Type 0} (E : Elf W) (content : ℕ → ℕ → ℕ → List ℕ) : Type 0 where
  pub read_at :
      (file offset size : ℕ) (bytes : List ℕ) (w : W)
      → (E.fseek file offset w).0 ≡ true
      → (E.fread file size (E.fseek file offset w).1).0 ≡ some bytes
      → bytes ≡ content file offset size
