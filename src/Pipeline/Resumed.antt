-- ===== src/Pipeline/Resumed.antt =====
-- The registers of the process in the emulator: loader/src/dump.c on the file that
-- snapshotter/src/linux/snapshot_dump.c writes, in the i386 builds.
use process_bridge.Snapshotter.Mappings.I386
use process_bridge.Snapshotter.Kernel.{Kernel, Streams, HasStreams, HasMaps}
use process_bridge.Snapshotter.Mappings.I386.Added.{write_snapshot32-front}
use process_bridge.Base.{sym, ◌∙◌, ℕ, List, ◌≡◌, returned, some, length, subst, ap}
use process_bridge.Loader.Host.{Host, Reg}
use process_bridge.Loader.Engine.{View, HasMemory}
use process_bridge.Loader.Registers.{HasRegisters, AreFitting}
use process_bridge.Common.UserDesc.{DescLayout, IsLawful}
use process_bridge.Loader.Engine.Ring3.{HasRing3, IsUserFrame}
use process_bridge.Common.I386State.{I386State, IsI386State, i386_state_bytes}
use process_bridge.Loader.Dump.{restore_from}
use process_bridge.Loader.Registers.Saved32.{saved32}
use process_bridge.Loader.Registers.Files.{restore_from-saved32}
use process_bridge.Loader.I386.{general_writes, segment_writes}

module _ (K : Kernel) (S : Streams K) (streams : HasStreams K S) (maps : HasMaps K) (pid fuel : ℕ)
    (filename : List ℕ) (file : ℕ) (w w' : K.World) (H : Host) (V : View H)
    (registers : HasRegisters H V) (uc : ℕ) (L : DescLayout) where
  -- Where the i386 snapshotter and the loader both return, with streams, lines and an engine that
  -- keep their laws, that of an `iret` to ring 3 included, a layout of descriptors that copies them
  -- by their bytes, a well-formed i386 state whose values fit their registers and whose frame is
  -- one of a user process, and an engine in 32-bit mode and in ring 0: the loader gives the
  -- instruction pointer that the snapshotter was given, and each register that a snapshot has, but
  -- for `eflags`, holds the value that the snapshotter was given.
  pub restore_from-dump_snapshot-saved32 :
      HasMemory H V
      → (ring0 : ℕ → H.World → Type 0) → HasRing3 H V ring0
      → IsLawful L
      → (s : I386State) → IsI386State s
      → IsUserFrame s.regs
      → AreFitting (general_writes s.regs)
      → AreFitting (segment_writes s.regs)
      → I386.dump_snapshot K L fuel s pid filename w ≡ returned tt w'
      → (K.fopen_wb filename w).0 ≡ some file
      → (v v1 v2 v' : H.World) (arch entry : ℕ) → H.uc_query_arch uc v ≡ (arch, v1)
      → H.uc_query_mode uc v1 ≡ (H.uc_mode_32, v2)
      → ring0 uc v2
      → restore_from H L uc (S.contents file w') (length (S.contents file w')) v ≡ returned entry v'
      → (q : Reg) (value : ℕ) → saved32 s.regs q ≡ some value
      → (entry ≡ s.regs.eip) × (V.reg uc q v' ≡ value)
  unfolding I386.dump_snapshot
  restore_from-dump_snapshot-saved32 memory ring0 ring3 lawful s fits user general segments h opened
        v v1 v2 v' arch entry qa qm ring restored =
      let (file', back, opened', bytes) =
        write_snapshot32-front K S streams maps fuel (i386_state_bytes L s) pid filename w w' h in
      let same : file' ≡ file = cc in
      let run =
        subst (λ (c : List ℕ). restore_from H L uc c (length c) v ≡ returned entry v')
          (ap (λ f. S.contents f w') (sym same) ∙ bytes) restored in
      restore_from-saved32 H V memory registers ring0 ring3 uc L lawful s back fits user general
        segments v v1 v2 v' arch entry qa qm ring run
