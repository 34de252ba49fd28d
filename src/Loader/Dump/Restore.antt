-- ===== src/Loader/Dump/Restore.antt =====
-- Restoring a well-formed file: the sections are loaded in their order, and the CPU state last.
use native.Mathlib.Nat.{zero-add}
use process_bridge.Base.{
  ◌≡◌, ℕ, List, All, length, ◌≤◌, ◌++◌, arith, ◌∷◌, suc, [], ◌>>◌, length-append, pure, ◌≢◌, Run,
  ap, ◌==◌, sym, false, and_then, ◌∙◌, true, and_then_assoc, if◌then◌else◌,
}
use process_bridge.Loader.Host.{Host}
use process_bridge.Common.UserDesc.{DescLayout, IsLawful}
use process_bridge.Common.Snapshot.{sections_bytes, Section, IsSection}
use process_bridge.Common.MapsEntry.{maps_entry_bytes}
use process_bridge.Loader.Dump.{restore_from, read_state, load_mappings, read_front}
use process_bridge.Base.Bytes.{le_bytes}
use process_bridge.Loader.Dump.Sections.{load_sections, load_mappings-sections, read_bytes-append}
use process_bridge.Loader.Cpu.{dump_cpu_state}
use process_bridge.Common.X8664.{
  X8664Regs, IsX8664Regs, x8664_regs_bytes, sizeof_x8664_regs, length-x8664_regs_bytes,
  x8664_regs_of-x8664_regs_bytes,
}
use process_bridge.Loader.X8664.{dump_x86_64_cpu_state}
use process_bridge.Common.I386State.{
  I386State, IsI386State, i386_state_bytes, sizeof_i386_state, length-i386_state_bytes,
  i386_state_of-i386_state_bytes,
}
use process_bridge.Loader.I386.{dump_i386_cpu_state}

sections_bytes-shorter : (ss : List Section) → length ss ≤ length (sections_bytes ss)
unfolding sections_bytes maps_entry_bytes le_bytes
sections_bytes-shorter [] = omega arith
sections_bytes-shorter (s ∷ ss) = omega (
  arith,
  sections_bytes-shorter ss,
  length-append s.entry.path (s.content ++ sections_bytes ss),
  length-append s.content (sections_bytes ss),
)

pub read_front-append :
    {W : Type 0} (front back : List ℕ) (size : ℕ)
    → length front ≡ size
    → read_front {W = W} (front ++ back) (length (front ++ back)) size ≡ pure (front, size)
unfolding read_front
read_front-append front back size h =
    rw (read_front, read_bytes-append [] front back size h, zero-add size)

module _ (H : Host) (L : DescLayout) (uc : ℕ) where
  -- The loop, once a state of `size` bytes is read off the front.
  restore_behind :
      (front : List ℕ) (ss : List Section) (size : ℕ)
      → length front ≡ size
      → All IsSection ss
      → let data_bytes = front ++ sections_bytes ss in
        load_mappings H (suc (length data_bytes)) uc data_bytes (length data_bytes) size 0
        ≡ (load_sections H uc ss >> pure (length ss))
  restore_behind front ss size at h =
      let data_bytes = front ++ sections_bytes ss in
      let fuel = suc (length data_bytes) in
      ap (λ (n : ℕ). load_mappings H fuel uc data_bytes (length data_bytes) n 0) (sym at)
      ∙ load_mappings-sections H uc ss fuel front 0 h
          (omega (arith, length-append front (sections_bytes ss), sections_bytes-shorter ss))
      ∙ rw (zero-add (length ss))

  then_state :
      (ss : List Section) (count : ℕ) (k : Run H.World ℕ) (w : H.World)
      → and_then (and_then (load_sections H uc ss w) (λ _. pure count)) (λ _. k)
        ≡ (load_sections H uc ss >> k) w
  then_state ss count k w = and_then_assoc (load_sections H uc ss w) (λ _. pure count) (λ _. k)

  -- On an engine in 64-bit mode, where the codes of the two modes differ, a file of well-formed
  -- x86_64 registers and sections is restored by loading the sections in their order and then the
  -- registers.
  pub restore_from-x8664 :
      (s : X8664Regs) (ss : List Section)
      → IsX8664Regs s
      → All IsSection ss
      → H.uc_mode_32 ≢ H.uc_mode_64
      → (w w' w'' : H.World) (arch : ℕ) → H.uc_query_arch uc w ≡ (arch, w')
      → H.uc_query_mode uc w' ≡ (H.uc_mode_64, w'')
      → let data_bytes = x8664_regs_bytes s ++ sections_bytes ss in
        restore_from H L uc data_bytes (length data_bytes) w
        ≡ (load_sections H uc ss >> dump_x86_64_cpu_state H uc s) w''
  unfolding restore_from read_state dump_cpu_state
  restore_from-x8664 s ss fits sections apart w w' w'' arch queried_arch queried_mode =
      let front = x8664_regs_bytes s in
      let not_32 : (H.uc_mode_64 == H.uc_mode_32) ≡ false = ground arith in
      let is_64 : (H.uc_mode_64 == H.uc_mode_64) ≡ true = ground arith in
      let front_size = length-x8664_regs_bytes s in
      rw (queried_arch, queried_mode, if◌then◌else◌, not_32, is_64)
        (rw
          (
            read_front-append front (sections_bytes ss) sizeof_x8664_regs front_size,
            restore_behind front ss sizeof_x8664_regs front_size sections,
            x8664_regs_of-x8664_regs_bytes s fits,
          )
          (then_state ss (length ss) (dump_x86_64_cpu_state H uc s) w''))

  -- On an engine in 32-bit mode, with a layout of descriptors that copies them by their bytes, a
  -- file of a well-formed i386 state and sections is restored by loading the sections in their
  -- order and then the state.
  pub restore_from-i386 :
      (s : I386State) (ss : List Section)
      → IsLawful L
      → IsI386State s
      → All IsSection ss
      → (w w' w'' : H.World) (arch : ℕ) → H.uc_query_arch uc w ≡ (arch, w')
      → H.uc_query_mode uc w' ≡ (H.uc_mode_32, w'')
      → let data_bytes = i386_state_bytes L s ++ sections_bytes ss in
        restore_from H L uc data_bytes (length data_bytes) w
        ≡ (load_sections H uc ss >> dump_i386_cpu_state H uc s) w''
  unfolding restore_from read_state dump_cpu_state
  restore_from-i386 s ss lawful fits sections w w' w'' arch queried_arch queried_mode =
      let front = i386_state_bytes L s in
      let is_32 : (H.uc_mode_32 == H.uc_mode_32) ≡ true = ground arith in
      let front_size = length-i386_state_bytes L lawful s fits in
      rw (queried_arch, queried_mode, if◌then◌else◌, is_32)
        (rw
          (
            read_front-append front (sections_bytes ss) (sizeof_i386_state L) front_size,
            restore_behind front ss (sizeof_i386_state L) front_size sections,
            i386_state_of-i386_state_bytes L lawful s fits,
          )
          (then_state ss (length ss) (dump_i386_cpu_state H uc s) w''))
