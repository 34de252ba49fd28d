-- ===== src/Snapshotter/ProcessInfo/Class.antt =====
-- The class of an ELF file.
use process_bridge.Base.{
  ℕ, List, ◌≡◌, ◌⊎◌, inl, inr, returned, take, get_or, length, Bool-cases, fatal_if-eq_returned,
  ◌==◌, if◌then◌else◌, not, or_fatal-eq_returned, arith, subst,
}
use process_bridge.Base.Text.{same_text, same_text→eq}
use process_bridge.Snapshotter.Elf.{Elf, HasFile}
use process_bridge.Snapshotter.ProcessInfo.{
  ElfClass, elf_class_32, elf_class_64, detect_elf_class, class_of,
}

-- What the identification says, of a class.
pub record IsElf {W : Type 0} (E : Elf W) (ident : List ℕ) (class : ElfClass) : Type 0 where
  pub magic : take (length E.elf_magic) ident ≡ E.elf_magic
  pub class_byte :
      ((class ≡ elf_class_32) × (get_or ident E.ei_class 0 ≡ E.elfclass32))
      ⊎ ((class ≡ elf_class_64) × (get_or ident E.ei_class 0 ≡ E.elfclass64))

module _ {W : Type 0} (E : Elf W) where
  class_of_lem :
      (byte : ℕ) (class : ElfClass) (w w' : W)
      → class_of E byte w ≡ returned class w'
      → ((class ≡ elf_class_32) × (byte ≡ E.elfclass32))
        ⊎ ((class ≡ elf_class_64) × (byte ≡ E.elfclass64))
  unfolding class_of
  class_of_lem byte class w w' h = elim (Bool-cases (byte == E.elfclass32)) [
    | inl is_32 ↦ let e = rw (if◌then◌else◌, is_32) at h in inl (cc, ground arith)
    | inr not_32 ↦ elim (Bool-cases (byte == E.elfclass64)) [
      | inl is_64 ↦ let e = rw (if◌then◌else◌, not_32, is_64) at h in inr (cc, ground arith)
      | inr not_64 ↦ cc (rw (if◌then◌else◌, not_32, not_64) at h)
    ]
  ]

  -- Where `detect_elf_class` returns, for a file that is read as it is, the file starts with the
  -- magic bytes, and the class is the one that its class byte stands for: every other file ends in
  -- an exit.
  pub detect_elf_class-IsElf :
      (content : ℕ → ℕ → ℕ → List ℕ)
      → HasFile E content
      → (file : ℕ) (class : ElfClass) (w w' : W) → detect_elf_class E file w ≡ returned class w'
      → IsElf E (content file 0 E.ei_nident) class
  unfolding detect_elf_class
  detect_elf_class-IsElf content files file class w w' h =
      let seek = E.fseek file 0 w in
      let (sought, h1) = fatal_if-eq_returned (not seek.0) seek.1 _ h in
      let (ident, read, h2) = or_fatal-eq_returned (E.fread file E.ei_nident) seek.1 _ h1 in
      let u = (E.fread file E.ei_nident seek.1).1 in
      let n = length E.elf_magic in
      let (magic, h3) = fatal_if-eq_returned (not (same_text (take n ident) E.elf_magic)) u _ h2 in
      let same = files.read_at file 0 E.ei_nident ident w (ground arith) read in
      subst (λ (b : List ℕ). IsElf E b class) same
        (record {
          magic = same_text→eq (take n ident) E.elf_magic (ground arith);
          class_byte = class_of_lem (get_or ident E.ei_class 0) class u w' h3;
        })
