-- ===== src/Pipeline/Copied.antt =====
-- The memory of the process in the emulator: loader/src/dump.c on the file that snapshot_dump.c and
-- mappings_reader.c write.
use process_bridge.Snapshotter.Mappings.{dump_snapshot, is_special}
use process_bridge.Base.{
  ℕ, ◌<◌, length, List, ◌-◌, ◌≡◌, get_elem?, All, ◌+◌, some, if◌then◌else◌, false, arith, ◌==◌,
  returned, ◌≢◌, subst,
}
use process_bridge.Snapshotter.Mappings.Memory.{CanRead}
use process_bridge.Snapshotter.Mappings.Listing.{HasListing, entries_in}
use process_bridge.Common.MapsEntry.{MapsEntry}
use process_bridge.Snapshotter.Kernel.{Kernel, Streams, HasStreams, HasMaps}
use process_bridge.Loader.Host.{Host}
use process_bridge.Loader.Engine.{View, HasMemory}
use process_bridge.Common.UserDesc.{DescLayout}
use process_bridge.Common.X8664.{X8664Regs, IsX8664Regs, x8664_regs_bytes}
use process_bridge.Loader.Dump.{restore_from, entry_perms}
use process_bridge.Loader.Engine.Cpu.{restore_from-HoldsAt}
use process_bridge.Pipeline.Sections.{
  IsEntry, write_snapshot-sections_of, sections_of-get_elem?, section_of, length-range_bytes,
  sections_of, sections_of-IsSection, HoldsAt-section_of,
}

module _ (K : Kernel) (S : Streams K) (streams : HasStreams K S) (maps : HasMaps K)
    (left : ℕ → K.World → List (List ℕ)) (listed : HasListing K left) (pid : ℕ) (memory : ℕ → ℕ)
    (H : Host) (V : View H) (engine : HasMemory H V) (uc : ℕ) (L : DescLayout) where
  -- What the snapshotter writes and the loader restores is the memory of the process. Where both
  -- return, with streams, lines and an engine that keep their laws, registers of 64 bits, a process
  -- whose maps read as one listing of well-formed entries and whose memory can be read wherever a
  -- mapping of it says so, and an engine in 64-bit mode where the codes of the two modes differ: each
  -- address of each mapping, but for those of the kernel, holds in the engine the byte that it has in
  -- the process, or zero if the mapping cannot be read, with the permissions of the mapping.
  pub restore_from-dump_snapshot :
      (listing : List (List ℕ))
      → ((path : List ℕ) (from : ℕ) (w : K.World)
          → K.snprintf_maps pid ≡ some path
          → (K.fopen_rb path w).0 ≡ some from
          → left from (K.fopen_rb path w).1 ≡ listing)
      → All (CanRead K pid memory) (entries_in K listing K.uninitialised_path)
      → All IsEntry (entries_in K listing K.uninitialised_path)
      → (fuel : ℕ) (s : X8664Regs) (filename : List ℕ) (file : ℕ) (w w' : K.World) → IsX8664Regs s
      → dump_snapshot K fuel s pid filename w ≡ returned tt w'
      → (K.fopen_wb filename w).0 ≡ some file
      → H.uc_mode_32 ≢ H.uc_mode_64
      → (v v1 v2 v' : H.World) (arch entry : ℕ) → H.uc_query_arch uc v ≡ (arch, v1)
      → H.uc_query_mode uc v1 ≡ (H.uc_mode_64, v2)
      → restore_from H L uc (S.contents file w') (length (S.contents file w')) v ≡ returned entry v'
      → (i k : ℕ) (e : MapsEntry) → get_elem? (entries_in K listing K.uninitialised_path) i ≡ some e
      → is_special e.path ≡ false
      → k < e.end - e.start
      → (V.byte uc (e.start + k) v' ≡ (if e.read == 0 then 0 else memory (e.start + k)))
        × (V.perms uc (e.start + k) v' ≡ some (entry_perms H e))
  unfolding dump_snapshot
  restore_from-dump_snapshot listing first can good fuel s filename file w w' fits h opened differ v
        v1 v2 v' arch entry qa qm restored i k e at plain lt =
      let es = entries_in K listing K.uninitialised_path in
      let bytes =
        write_snapshot-sections_of K S streams maps left listed pid memory listing first can fuel
          (x8664_regs_bytes s) filename file w w' h opened in
      let run =
        subst (λ (c : List ℕ). restore_from H L uc c (length c) v ≡ returned entry v') bytes
          restored in
      let (j, there) = sections_of-get_elem? memory es i e at plain in
      let inside : k < length (section_of memory e).content =
        omega (arith, lt, length-range_bytes memory e.read e.start (e.end - e.start)) in
      HoldsAt-section_of H V uc memory e k v' lt (
        restore_from-HoldsAt H V engine uc L s (sections_of memory es) fits
          (sections_of-IsSection memory es good) differ v v1 v2 v' arch entry qa qm run j k
          (section_of memory e) there inside)
