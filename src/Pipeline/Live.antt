-- ===== src/Pipeline/Live.antt =====
-- The file of the x86_64 snapshotter in a fresh emulator.
use process_bridge.Snapshotter.Mappings.{dump_snapshot}
use process_bridge.Base.{◌≢◌, length, subst, sym, ℕ, List, ◌≡◌, some, All, returned}
use process_bridge.Snapshotter.Kernel.{Kernel, Streams, HasStreams, HasMaps}
use process_bridge.Snapshotter.Mappings.Listing.{HasListing, entries_in}
use process_bridge.Loader.Host.{Host}
use process_bridge.Loader.Engine.{View, HasMemory}
use process_bridge.Loader.Engine.Progress.{
  HasProgress, IsPagedSection, AreApart, AreOutside, AreFree, IsFree, AreTaken,
}
use process_bridge.Common.UserDesc.{DescLayout}
use process_bridge.Loader.Dump.{restore_from}
use process_bridge.Snapshotter.Mappings.Memory.{CanRead}
use process_bridge.Pipeline.Sections.{
  IsEntry, sections_in, sections_of-IsSection, write_snapshot-sections_of,
}
use process_bridge.Common.X8664.{X8664Regs, IsX8664Regs, x8664_regs_bytes}
use process_bridge.Loader.X8664.Table.{IsUserSelectors}
use process_bridge.Loader.Gdt.{pb_gdt_addr, pb_gdt_size}
use process_bridge.Loader.Engine.Live.{restore_from-returned}
use process_bridge.Loader.X8664.{reg_writes}

module _ (K : Kernel) (S : Streams K) (streams : HasStreams K S) (maps : HasMaps K)
    (left : ℕ → K.World → List (List ℕ)) (listed : HasListing K left) (pid : ℕ) (memory : ℕ → ℕ)
    (H : Host) (V : View H) (engine : HasMemory H V) (progress : HasProgress H V) (uc : ℕ)
    (L : DescLayout) where
  -- What the snapshotter writes is restored, with a return and no exit. This holds of a file that
  -- it wrote on its return, with streams and lines that keep their laws, of registers of 64 bits
  -- with the selectors of a user process and values that the registers take, and of a process whose
  -- maps read as one listing of well-formed entries, whose memory can be read wherever a mapping of
  -- it says so, and whose mappings, but for those of the kernel, are whole pages, apart from each
  -- other and from the table of descriptors; and of an engine that keeps its laws and accepts
  -- proper calls, in 64-bit mode where the codes of the two modes differ, in which those pages and
  -- the table are free.
  pub restore_from-dump_snapshot_returned :
      (listing : List (List ℕ))
      → ((path : List ℕ) (from : ℕ) (w : K.World)
          → K.snprintf_maps pid ≡ some path
          → (K.fopen_rb path w).0 ≡ some from
          → left from (K.fopen_rb path w).1 ≡ listing)
      → All (CanRead K pid memory) (entries_in K listing K.uninitialised_path)
      → All IsEntry (entries_in K listing K.uninitialised_path)
      → (fuel : ℕ) (s : X8664Regs) (filename : List ℕ) (file : ℕ) (w w' : K.World) → IsX8664Regs s
      → IsUserSelectors s
      → AreTaken (reg_writes s)
      → dump_snapshot K fuel s pid filename w ≡ returned tt w'
      → (K.fopen_wb filename w).0 ≡ some file
      → All IsPagedSection (sections_in K memory listing)
      → AreApart (sections_in K memory listing)
      → AreOutside pb_gdt_addr pb_gdt_size (sections_in K memory listing)
      → H.uc_mode_32 ≢ H.uc_mode_64
      → (v v1 v2 : H.World) (arch : ℕ) → H.uc_query_arch uc v ≡ (arch, v1)
      → H.uc_query_mode uc v1 ≡ (H.uc_mode_64, v2)
      → AreFree H V uc (sections_in K memory listing) v2
      → IsFree H V uc pb_gdt_addr pb_gdt_size v2
      → (entry : ℕ) × (v' : H.World) × (restore_from H L uc
            (S.contents file w')
            (length (S.contents file w'))
            v
          ≡ returned entry v')
  unfolding dump_snapshot
  restore_from-dump_snapshot_returned listing first can good fuel s filename file w w' fits user
        taken h opened paged apart outside differ v v1 v2 arch qa qm free table =
      let es = entries_in K listing K.uninitialised_path in
      let bytes =
        write_snapshot-sections_of K S streams maps left listed pid memory listing first can fuel
          (x8664_regs_bytes s) filename file w w' h opened in
      let (entry, v', run) =
        restore_from-returned H V engine progress uc L s (sections_in K memory listing) fits user
          taken (sections_of-IsSection memory es good) paged apart outside differ v v1 v2 arch qa qm
          free table in
      (
        entry,
        v',
        subst (λ (c : List ℕ). restore_from H L uc c (length c) v ≡ returned entry v') (sym bytes)
            run,
      )
