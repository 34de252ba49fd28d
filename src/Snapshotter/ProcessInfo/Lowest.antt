-- ===== src/Snapshotter/ProcessInfo/Lowest.antt =====
-- The image base of a position-independent file, by the bytes of its program headers.
use process_bridge.Base.{ℕ, List, ◌≡◌, ◌⊎◌, inl, inr, ◌≤◌, ◌<◌, ◌^◌, returned}
use process_bridge.Snapshotter.Elf.{Elf, HasFile}
use process_bridge.Snapshotter.Kernel.{Kernel}
use process_bridge.Snapshotter.ProcessInfo.{ElfInfo, get_image_base_via_elf_info}
use process_bridge.Snapshotter.ProcessInfo.ImageBase.{
  IsLoadedAt, get_image_base_via_elf_info-loaded,
}
use process_bridge.Snapshotter.ProcessInfo.Segments.{phdr_at, LoadsAt, get_min_vaddr-lowest}

-- Where the image base is returned, for a file that is read as it is and has a segment that is
-- loaded, at a 64-bit address, the file is an executable, whose base is 0 and for which nothing is
-- read, or it is position-independent: then its base and the lowest address of its segments that
-- are loaded, which is that of one of them and not above that of any, add up, in 64 bits, to the
-- lowest start among the mappings of the file, of which there is one.
pub get_image_base_via_elf_info-IsLoadedAt :
    (K : Kernel) (E : Elf K.World) (content : ℕ → ℕ → ℕ → List ℕ)
    → HasFile E content
    → (fuel : ℕ) (info : ElfInfo) (base i : ℕ) (w w' : K.World)
    → get_image_base_via_elf_info K E fuel info w ≡ returned base w'
    → i < info.ehdr.e_phnum
    → (phdr_at E content info i).p_type ≡ E.pt_load
    → (phdr_at E content info i).p_vaddr < 2 ^ 64
    → ((info.ehdr.e_type ≡ E.et_exec) × (base ≡ 0) × (w' ≡ w))
      ⊎ ((info.ehdr.e_type ≡ E.et_dyn)
          × (at : IsLoadedAt K E fuel info w w' base) × (at.min_vaddr
              ≤ (phdr_at E content info i).p_vaddr)
          × LoadsAt E content info 0 info.ehdr.e_phnum at.min_vaddr)
get_image_base_via_elf_info-IsLoadedAt K E content files fuel info base i w w' h lt loads fits =
    elim (get_image_base_via_elf_info-loaded K E fuel info base w w' h) [
      | inl exec ↦ inl exec
      | inr (dyn, at) ↦
          let (low, one) =
            get_min_vaddr-lowest E content files info at.min_vaddr i w at.after_elf at.segments lt
              loads fits in
          inr (dyn, at, low, one)
    ]
