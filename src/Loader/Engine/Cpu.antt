-- ===== src/Loader/Engine/Cpu.antt =====
-- Restoring the CPU state leaves what was mapped before as it was.
use process_bridge.Base.{
  set, length-set, length-replicate, some, none, Bool-cases, inl, ◌≡◌, ℕ, ◌∙◌, returned, List, true,
  >>-eq_returned, false, length, if◌then◌else◌, arith, All, inr, ◌≢◌, ◌++◌, get_elem?, ◌<◌, sym,
}
use process_bridge.Loader.X8664
use process_bridge.Loader.Host.{Host, Mmr}
use process_bridge.Loader.Engine.{View, KeepsAt, inside, HasMemory}
use process_bridge.Loader.Engine.Keeps.{
  reg_read-KeepsFrom, KeepsFrom, and_then-KeepsFrom, checked_keeps, returned-KeepsFrom,
  fatal_if-KeepsFrom, if-KeepsFrom, write_regs-KeepsFrom,
}
use process_bridge.Loader.Check.{pb_uc_check, pb_uc_check-eq_returned}
use process_bridge.Loader.Engine.Memory.{HoldsAt, load_sections-HoldsAt}
use process_bridge.Loader.Gdt.{pb_gdt_addr, pb_gdt_size}
use process_bridge.Base.Bytes.{words_bytes, length-words_bytes}
use process_bridge.Common.X8664.{X8664Regs, IsX8664Regs, x8664_regs_bytes}
use process_bridge.Common.UserDesc.{DescLayout}
use process_bridge.Common.Snapshot.{Section, IsSection, sections_bytes}
use process_bridge.Loader.Dump.{restore_from}
use process_bridge.Loader.Dump.Restore.{restore_from-x8664}
use process_bridge.Loader.Dump.Sections.{load_sections}

abbrev IsOutside : ℕ → Type 0
IsOutside x = inside pb_gdt_addr pb_gdt_size x ≡ false

-- An address outside of the table of descriptors.
module _ (H : Host) (V : View H) (memory : HasMemory H V) (uc x : ℕ) (outer : IsOutside x) where
  map_gdt :
      (prot : ℕ) (w : H.World)
      → KeepsFrom H V uc x w (pb_uc_check (H.uc_mem_map uc pb_gdt_addr pb_gdt_size prot) w)
  map_gdt prot w = checked_keeps H V uc x _ w λ w' e. record {
    byte_kept = memory.map_byte uc _ _ prot x w w' e outer;
    perms_kept = memory.map_perms uc _ _ prot x w w' e ∙ rw (if◌then◌else◌, outer);
  }

  write_gdt :
      (gdt : List ℕ) (w : H.World)
      → length gdt ≡ 512
      → KeepsFrom H V uc x w (pb_uc_check (H.uc_mem_write uc pb_gdt_addr (words_bytes 8 gdt)) w)
  write_gdt gdt w h =
      let size : length (words_bytes 8 gdt) ≡ pb_gdt_size =
        length-words_bytes 8 gdt ∙ omega (arith, h) in
      checked_keeps H V uc x _ w λ w' e. record {
        byte_kept = memory.write_byte uc _ _ x w w' e ∙ rw (if◌then◌else◌, size, outer);
        perms_kept = memory.write_perms uc _ _ x w w' e;
      }

  protect_gdt :
      (prot : ℕ) (w : H.World)
      → KeepsFrom H V uc x w (pb_uc_check (H.uc_mem_protect uc pb_gdt_addr pb_gdt_size prot) w)
  protect_gdt prot w = checked_keeps H V uc x _ w λ w' e. record {
    byte_kept = memory.protect_byte uc _ _ prot x w w' e;
    perms_kept = memory.protect_perms uc _ _ prot x w w' e ∙ rw (if◌then◌else◌, outer);
  }

  write_gdtr :
      (mmr : Mmr) (w : H.World) → KeepsFrom H V uc x w (pb_uc_check (H.uc_gdtr_write uc mmr) w)
  write_gdtr mmr w = checked_keeps H V uc x _ w λ w' e. memory.gdtr_keeps uc mmr x w w' e

  length-gdt : (i j a b : ℕ) → length (set (set X8664.zero_gdt i a) j b) ≡ 512
  unfolding X8664.zero_gdt
  length-gdt i j a b = rw (length-set, length-set, length-replicate)

  x8664_gdt_keeps : (s : X8664Regs) (w : H.World) → KeepsFrom H V uc x w (X8664.dump_gdt H uc s w)
  unfolding X8664.dump_gdt
  x8664_gdt_keeps s w =
      search
        (
          and_then-KeepsFrom, fatal_if-KeepsFrom, returned-KeepsFrom, map_gdt, write_gdt,
          length-gdt, protect_gdt, write_gdtr,
        )
        depth 14

  x8664_regs_keep : (s : X8664Regs) (w : H.World) → KeepsFrom H V uc x w (X8664.dump_regs H uc s w)
  unfolding X8664.dump_regs
  x8664_regs_keep s w = search (and_then-KeepsFrom, returned-KeepsFrom, write_regs-KeepsFrom)

  x8664_keeps :
      (s : X8664Regs) (w : H.World) → KeepsFrom H V uc x w (X8664.dump_x86_64_cpu_state H uc s w)
  unfolding X8664.dump_x86_64_cpu_state
  x8664_keeps s w =
      search
        (
          and_then-KeepsFrom, if-KeepsFrom, returned-KeepsFrom, x8664_gdt_keeps, x8664_regs_keep,
          reg_read-KeepsFrom,
        )
        depth 10

module _ (H : Host) (V : View H) (memory : HasMemory H V) (uc : ℕ) where
  -- The table of descriptors is mapped, so its addresses were free.
  x8664_free :
      (s : X8664Regs) (w w' : H.World) (entry x : ℕ)
      → X8664.dump_x86_64_cpu_state H uc s w ≡ returned entry w'
      → inside pb_gdt_addr pb_gdt_size x ≡ true
      → V.perms uc x w ≡ none
  unfolding X8664.dump_x86_64_cpu_state X8664.dump_gdt
  x8664_free s w w' entry x h inner =
      let (_, u, gdt, _) = >>-eq_returned (X8664.dump_gdt H uc s w) _ h in
      let (_, v, mapped, _) = >>-eq_returned (pb_uc_check _ w) _ gdt in
      memory.map_free uc _ _ _ x w v (pb_uc_check-eq_returned _ w v mapped) inner

  -- Restoring the x86_64 state leaves mapped memory as it is.
  x8664_mapped_keeps :
      (s : X8664Regs) (w w' : H.World) (entry x prot : ℕ)
      → X8664.dump_x86_64_cpu_state H uc s w ≡ returned entry w'
      → V.perms uc x w ≡ some prot
      → KeepsAt H V uc x w w'
  x8664_mapped_keeps s w w' entry x prot h there =
      elim (Bool-cases (inside pb_gdt_addr pb_gdt_size x)) [
        | inl inner ↦ cc (x8664_free s w w' entry x h inner)
        | inr outer ↦ (x8664_keeps H V memory uc x outer s w).kept entry w' h
      ]

  -- Where the restore of a file of well-formed x86_64 registers and sections returns, in an engine
  -- in 64-bit mode that keeps the laws of its memory, each address of each section holds the byte
  -- and the permissions that the snapshot has for it.
  pub restore_from-HoldsAt :
      (L : DescLayout) (s : X8664Regs) (ss : List Section)
      → IsX8664Regs s
      → All IsSection ss
      → H.uc_mode_32 ≢ H.uc_mode_64
      → (w u v w' : H.World) (arch entry : ℕ) → H.uc_query_arch uc w ≡ (arch, u)
      → H.uc_query_mode uc u ≡ (H.uc_mode_64, v)
      → restore_from H L uc
          (x8664_regs_bytes s ++ sections_bytes ss)
          (length (x8664_regs_bytes s ++ sections_bytes ss))
          w
        ≡ returned entry w'
      → (i k : ℕ) (section : Section) → get_elem? ss i ≡ some section
      → k < length section.content
      → HoldsAt H V uc section k w'
  restore_from-HoldsAt L s ss fits good apart w u v w' arch entry qa qm h i k section at lt =
      let plan = restore_from-x8664 H L uc s ss fits good apart w u v arch qa qm in
      let (_, t, sections, cpu) = >>-eq_returned (load_sections H uc ss v) _ (sym plan ∙ h) in
      let held = load_sections-HoldsAt H V memory uc ss v t i k section good sections at lt in
      let kept = x8664_mapped_keeps s t w' entry _ _ cpu held.perms_there in
      record {
        byte_there = kept.byte_kept ∙ held.byte_there;
        perms_there = kept.perms_kept ∙ held.perms_there;
      }
