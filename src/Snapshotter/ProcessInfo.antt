-- ===== src/Snapshotter/ProcessInfo.antt =====
-- snapshotter/src/linux/process_info.c
pub mod Segments
pub mod Class
pub mod ImageBase
pub mod Lowest
pub mod Termination
use process_bridge.Base.{
  ℕ, zero, suc, some, none, List, [], ◌∷◌, ◌++◌, Bool, not, ◌&&◌, Run, pure, fatal, fatal_if, call,
  effect, or_fatal, out_of_fuel, if◌then◌else◌, ◌==◌, ltb, get_or, take, ◌+◌, ◌-◌, ◌*◌, ◌%◌, ◌^◌,
  ◌>>=◌, ◌>>◌, length,
}
use process_bridge.Base.Text.{c_string, same_text}
use process_bridge.Common.MapsEntry.{max_path}
use process_bridge.Snapshotter.Elf.{Elf, Ehdr, ElfLayout}
use process_bridge.Snapshotter.Kernel.{Kernel}
use process_bridge.Snapshotter.Maps.{MapsIter, create_maps_iter, next}

-- `elf_class_t`
pub data ElfClass : Type 0 where
  elf_class_32 elf_class_64 : ElfClass

-- `elf_info_t`; `path` is the text in its buffer, with its zero.
pub record ElfInfo : Type 0 where
  pub class : ElfClass
  pub ehdr : Ehdr
  pub path : List ℕ
  pub pid : ℕ
  pub file : ℕ

abbrev pub size_max : ℕ
size_max = 2 ^ 64 - 1

abbrev pub layout_of : {W : Type 0} → Elf W → ElfClass → ElfLayout
layout_of E elf_class_32 = E.layout32
layout_of E elf_class_64 = E.layout64

module _ {W : Type 0} (E : Elf W) where
  -- The `switch` over the class byte.
  unfoldable pub class_of : ℕ → Run W ElfClass
  class_of byte =
      if byte == E.elfclass32
      then pure elf_class_32
      else (if byte == E.elfclass64 then pure elf_class_64 else fatal)

  unfoldable pub detect_elf_class : ℕ → Run W ElfClass
  detect_elf_class file = do
    ok ← call (E.fseek file 0)
    fatal_if (not ok)
    e_ident ← or_fatal (E.fread file E.ei_nident)
    fatal_if (not (same_text (take (length E.elf_magic) e_ident) E.elf_magic))
    class_of (get_or e_ident E.ei_class 0)

  unfoldable pub is_pie : ElfInfo → Run W Bool
  is_pie info = do
    let e_type = info.ehdr.e_type
    fatal_if (not (e_type == E.et_dyn) && not (e_type == E.et_exec))
    pure (e_type == E.et_dyn)

  -- Where the program header stands in the file.
  abbrev pub phdr_offset : ElfInfo → ℕ → ℕ
  phdr_offset info i = (info.ehdr.e_phoff + i * info.ehdr.e_phentsize) % 2 ^ 64

  -- The loop over the program headers, with `i` and `min_vaddr`, for the rounds that are left.
  unfoldable pub min_vaddr_from : ℕ → ElfInfo → ℕ → ℕ → Run W ℕ
  min_vaddr_from zero info i min_vaddr = pure min_vaddr
  min_vaddr_from (suc rounds) info i min_vaddr = do
    ok ← call (E.fseek info.file (phdr_offset info i))
    fatal_if (not ok)
    bytes ← or_fatal (E.fread info.file (layout_of E info.class).phdr_size)
    let p = (layout_of E info.class).phdr_of bytes
    min_vaddr_from rounds info (i + 1)
        (if p.p_type == E.pt_load && ltb p.p_vaddr min_vaddr then p.p_vaddr else min_vaddr)

  unfoldable pub get_min_vaddr : ElfInfo → Run W ℕ
  get_min_vaddr info = min_vaddr_from info.ehdr.e_phnum info 0 size_max

module _ (K : Kernel) where
  -- The loop over the mappings, with `min_maps_addr`. `fuel` bounds its rounds.
  unfoldable pub min_start_from : ℕ → MapsIter → List ℕ → ℕ → Run K.World ℕ
  min_start_from zero iter path min_addr = λ w. out_of_fuel
  min_start_from (suc fuel) iter path min_addr = do
    entry ← next K iter
    elim entry [
      | none ↦ pure min_addr
      | some e ↦
          min_start_from fuel (record { file = iter.file; path = e.path }) path
            (if same_text (c_string e.path) (c_string path) && ltb e.start min_addr
              then e.start
              else min_addr)
    ]

module _ (K : Kernel) (E : Elf K.World) where
  unfoldable pub open_elf : List ℕ → ℕ → Run K.World ElfInfo
  open_elf filename pid = do
    file ← or_fatal (K.fopen_rb filename)
    class ← detect_elf_class E file
    effect (E.rewind file)
    header ← or_fatal (E.fread file (layout_of E class).ehdr_size)
    fd ← or_fatal (E.fileno file)
    link ← or_fatal (E.readlink (E.fd_link fd) (max_path - 1))
    pure (record {
      class = class;
      ehdr = (layout_of E class).ehdr_of header;
      path = link ++ 0 ∷ [];
      pid = pid;
      file = file;
    })

  -- The base of a position-independent file, with what follows the early return.
  unfoldable pub pie_base : ℕ → ElfInfo → Run K.World ℕ
  pie_base fuel info = do
    min_vaddr ← get_min_vaddr E info
    iter ← create_maps_iter K info.pid
    min_maps_addr ← min_start_from K fuel iter info.path size_max
    fatal_if (min_maps_addr == size_max)
    pure ((min_maps_addr + 2 ^ 64 - min_vaddr) % 2 ^ 64)

  unfoldable pub get_image_base_via_elf_info : ℕ → ElfInfo → Run K.World ℕ
  get_image_base_via_elf_info fuel info = do
    pie ← is_pie E info
    if not pie then pure 0 else pie_base fuel info

  unfoldable pub get_image_base : ℕ → List ℕ → ℕ → Run K.World ℕ
  get_image_base fuel filename pid = do
    info ← open_elf filename pid
    image_base ← get_image_base_via_elf_info fuel info
    closed ← call (K.fclose info.file)
    fatal_if (not closed)
    pure image_base
