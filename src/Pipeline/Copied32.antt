-- ===== src/Pipeline/Copied32.antt =====
-- The memory of an i386 process in the emulator.
use process_bridge.Snapshotter.Mappings.I386.{dump_snapshot}
use process_bridge.Snapshotter.Mappings.I386.Narrow.{HasMaps32, write_snapshot32-eq}
use process_bridge.Base.{
  sym, ◌∙◌, ◌-◌, ◌+◌, if◌then◌else◌, ◌==◌, subst, arith, ℕ, List, ◌≡◌, some, All, returned, length,
  get_elem?, false, ◌<◌,
}
use process_bridge.Snapshotter.Kernel.{Kernel, Streams, HasStreams, HasMaps}
use process_bridge.Snapshotter.Mappings.Listing.{HasListing, entries_in}
use process_bridge.Loader.Host.{Host}
use process_bridge.Loader.Engine.{View, HasMemory}
use process_bridge.Loader.Engine.Ring3.{HasRing3}
use process_bridge.Common.UserDesc.{DescLayout, IsLawful}
use process_bridge.Snapshotter.Mappings.Memory.{CanRead}
use process_bridge.Pipeline.Sections.{
  IsEntry, write_snapshot-sections_of, sections_of-get_elem?, section_of, length-range_bytes,
  HoldsAt-section_of, sections_of, sections_of-IsSection,
}
use process_bridge.Common.I386State.{I386State, IsI386State, i386_state_bytes}
use process_bridge.Loader.Dump.{restore_from, entry_perms}
use process_bridge.Common.MapsEntry.{MapsEntry}
use process_bridge.Snapshotter.Mappings.{is_special}
use process_bridge.Loader.Engine.Cpu32.{restore_from-i386_HoldsAt}

module _ (K : Kernel) (S : Streams K) (streams : HasStreams K S) (maps : HasMaps K)
    (maps32 : HasMaps32 K) (left : ℕ → K.World → List (List ℕ)) (listed : HasListing K left)
    (pid : ℕ) (memory : ℕ → ℕ) (H : Host) (V : View H) (engine : HasMemory H V)
    (ring0 : ℕ → H.World → Type 0) (ring3 : HasRing3 H V ring0) (uc : ℕ) (L : DescLayout)
    (lawful : IsLawful L) where
  -- What the i386 snapshotter writes and the loader restores is the memory of the process. Where
  -- both return, with streams, lines and an engine that keep their laws, that of an `iret` to ring
  -- 3 included, and a kernel that gives 32-bit addresses, a layout of descriptors that copies them
  -- by their bytes, a well-formed i386 state, a process whose maps read as one listing of
  -- well-formed entries and whose memory can be read wherever a mapping of it says so, and an
  -- engine in 32-bit mode: each address of each mapping, but for those of the kernel, holds in the
  -- engine the byte that it has in the process, or zero if the mapping cannot be read, with the
  -- permissions of the mapping.
  pub restore_from-dump_snapshot_i386 :
      (listing : List (List ℕ))
      → ((path : List ℕ) (from : ℕ) (w : K.World)
          → K.snprintf_maps pid ≡ some path
          → (K.fopen_rb path w).0 ≡ some from
          → left from (K.fopen_rb path w).1 ≡ listing)
      → All (CanRead K pid memory) (entries_in K listing K.uninitialised_path)
      → All IsEntry (entries_in K listing K.uninitialised_path)
      → (fuel : ℕ) (s : I386State) (filename : List ℕ) (file : ℕ) (w w' : K.World) → IsI386State s
      → dump_snapshot K L fuel s pid filename w ≡ returned tt w'
      → (K.fopen_wb filename w).0 ≡ some file
      → (v v1 v2 v' : H.World) (arch entry : ℕ) → H.uc_query_arch uc v ≡ (arch, v1)
      → H.uc_query_mode uc v1 ≡ (H.uc_mode_32, v2)
      → restore_from H L uc (S.contents file w') (length (S.contents file w')) v ≡ returned entry v'
      → (i k : ℕ) (e : MapsEntry) → get_elem? (entries_in K listing K.uninitialised_path) i ≡ some e
      → is_special e.path ≡ false
      → k < e.end - e.start
      → (V.byte uc (e.start + k) v' ≡ (if e.read == 0 then 0 else memory (e.start + k)))
        × (V.perms uc (e.start + k) v' ≡ some (entry_perms H e))
  unfolding dump_snapshot
  restore_from-dump_snapshot_i386 listing first can good fuel s filename file w w' fits h opened v
        v1 v2 v' arch entry qa qm restored i k e at plain lt =
      let es = entries_in K listing K.uninitialised_path in
      let bytes =
        write_snapshot-sections_of K S streams maps left listed pid memory listing first can fuel
          (i386_state_bytes L s) filename file w w'
          (sym (write_snapshot32-eq K maps32 fuel (i386_state_bytes L s) pid filename w) ∙ h)
          opened in
      let run =
        subst (λ (c : List ℕ). restore_from H L uc c (length c) v ≡ returned entry v') bytes
          restored in
      let (j, there) = sections_of-get_elem? memory es i e at plain in
      let inside : k < length (section_of memory e).content =
        omega (arith, lt, length-range_bytes memory e.read e.start (e.end - e.start)) in
      HoldsAt-section_of H V uc memory e k v' lt (
        restore_from-i386_HoldsAt H V engine ring0 ring3 uc L lawful s (sections_of memory es) fits
          (sections_of-IsSection memory es good) v v1 v2 v' arch entry qa qm run j k
          (section_of memory e) there inside)
