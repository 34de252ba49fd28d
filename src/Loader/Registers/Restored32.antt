-- ===== src/Loader/Registers/Restored32.antt =====
-- The registers after the i386 state of a snapshot is restored.
use process_bridge.Base.{
  [], ◌∷◌, List, ℕ, ◌≡◌, Bool, some, true, false, not, ◌<◌, returned, ◌&&◌, refl, subst, ap, ◌∙◌,
  arith, ◌+◌, get_or, length, ◌-◌, if◌then◌else◌,
}
use process_bridge.Loader.Host.{eflags, cs, ss, esp, eip, Host, Reg}
use process_bridge.Loader.I386
use process_bridge.Loader.Engine.{View, HasMemory, inside}
use process_bridge.Loader.Registers.Written.{write_regs-untouched, write_regs_last}
use process_bridge.Loader.I386.{
  segment_writes, general_writes, frame_addr, iret_frame, pb_trampoline_addr,
}
use process_bridge.Loader.Engine.Ring3.{popped, iret_changes, HasRing3, IsUserFrame}
use process_bridge.Loader.Registers.{HasRegisters, reg_eq, touches, AreFitting}
use process_bridge.Loader.Writes.{write_regs}
use process_bridge.Common.I386State.{I386State}
use process_bridge.Loader.I386.Calls.{enter_ring3_calls, dump_i386_cpu_state_steps, dump_gdt_calls}
use process_bridge.Loader.Check.{pb_uc_check_passed}
use process_bridge.Base.Bytes.{words_bytes, length-words_bytes}
use process_bridge.Loader.Engine.Cpu32.{stub_there}
use process_bridge.Loader.Registers.Saved32.{
  saved32, saved32-Way, by_segment, saved32_plain, by_frame, by_general,
}

-- No write of the list changes the ring.
calm : List (Reg × ℕ) → Bool
calm [] = true
calm ((r, v) ∷ writes) =
    (not (touches cs r) && not (touches ss r) && not (touches eflags r)) && calm writes

module _ (H : Host) (V : View H) (memory : HasMemory H V) (registers : HasRegisters H V)
    (ring0 : ℕ → H.World → Type 0) (ring3 : HasRing3 H V ring0) (uc : ℕ) where
  write_regs_ring :
      (writes : List (Reg × ℕ)) (w w' : H.World)
      → write_regs H uc writes w ≡ returned tt w'
      → calm writes ≡ true
      → ring0 uc w
      → ring0 uc w'
  unfolding write_regs calm
  write_regs_ring [] w w' h quiet ring = let same : w ≡ w' = cc in subst (ring0 uc) same ring
  write_regs_ring ((r, v) ∷ writes) w w' h quiet ring =
      let (u, one, rest) = pb_uc_check_passed _ w _ h in
      write_regs_ring writes u w' rest (ground arith)
        (ring3.write_ring uc r v w u one (ground arith) (ground arith) (ground arith) ring)

  dump_gdt_ring :
      (s : I386State) (w w' : H.World)
      → I386.dump_gdt H uc s w ≡ returned 0 w'
      → ring0 uc w
      → ring0 uc w'
  dump_gdt_ring s w w' h ring =
      let (gdt, mmr, t, u, v, _, size, mapped, written, protected, loaded) =
        dump_gdt_calls H uc s w w' 0 h in
      let at_t = (ring3.map_regs uc _ _ _ w t mapped).ring_kept ring in
      let at_u = (ring3.write_mem_regs uc _ _ t u written).ring_kept at_t in
      let at_v = (ring3.protect_regs uc _ _ _ u v protected).ring_kept at_u in
      (ring3.gdtr_regs uc mmr v w' loaded).ring_kept at_v

  -- The frame stands at the stack pointer when the trampoline is run.
  frame_there :
      (s : I386State) (u v x : H.World) (i : ℕ)
      → i < 20
      → H.uc_mem_write uc frame_addr (words_bytes 4 (iret_frame s.regs)) u ≡ (0, v)
      → H.uc_reg_write uc esp frame_addr v ≡ (0, x)
      → V.byte uc (V.reg uc esp x + i) x ≡ get_or (words_bytes 4 (iret_frame s.regs)) i 0
  unfolding reg_eq
  frame_there s u v x i lt frame stack =
      let frame_bytes = words_bytes 4 (iret_frame s.regs) in
      let pointer : V.reg uc esp x ≡ frame_addr =
        registers.write_self uc esp frame_addr v x stack refl (omega arith) in
      let size : length frame_bytes ≡ 20 = length-words_bytes 4 (iret_frame s.regs) in
      let inner : inside frame_addr 20 (frame_addr + i) ≡ true = ground arith in
      let index : frame_addr + i - frame_addr ≡ i = omega arith in
      let kept = (memory.reg_keeps uc esp frame_addr (frame_addr + i) v x stack).byte_kept in
      ap (λ a. V.byte uc (a + i) x) pointer
      ∙ kept
      ∙ memory.write_byte uc frame_addr frame_bytes (frame_addr + i) u v frame
      ∙ rw (size, if◌then◌else◌, inner, index)

  enter_ring3_pops :
      (s : I386State) (w w' : H.World) (q : Reg) (value : ℕ)
      → I386.enter_ring3 H uc s w ≡ returned 0 w'
      → ring0 uc w
      → IsUserFrame s.regs
      → popped s.regs q ≡ some value
      → V.reg uc q w' ≡ value
  unfolding touches
  enter_ring3_pops s w w' q value h ring user pop =
      let (t, u, v, x, y, _, mapped, stub, frame, stack, ran, unmapped) =
        enter_ring3_calls H uc s w w' 0 h in
      let at_t = (ring3.map_regs uc _ _ _ w t mapped).ring_kept ring in
      let at_u = (ring3.write_mem_regs uc _ _ t u stub).ring_kept at_t in
      let at_v = (ring3.write_mem_regs uc _ _ u v frame).ring_kept at_u in
      let at_x = ring3.write_ring uc esp frame_addr v x stack refl refl refl at_v in
      (ring3.unmap_regs uc _ _ y w' unmapped).regs_kept q
      ∙ ring3.iret_pops uc pb_trampoline_addr s.regs x y ran
          (stub_there H V memory ring0 ring3 uc s t u v x stub frame stack) at_x user
          (λ i lt. frame_there s u v x i lt frame stack) q value pop

  enter_ring3_other :
      (s : I386State) (w w' : H.World) (q : Reg)
      → I386.enter_ring3 H uc s w ≡ returned 0 w'
      → touches esp q ≡ false
      → iret_changes q ≡ false
      → V.reg uc q w' ≡ V.reg uc q w
  enter_ring3_other s w w' q h apart quiet =
      let (t, u, v, x, y, _, mapped, stub, frame, stack, ran, unmapped) =
        enter_ring3_calls H uc s w w' 0 h in
      (ring3.unmap_regs uc _ _ y w' unmapped).regs_kept q
      ∙ ring3.iret_other uc pb_trampoline_addr q x y ran
          (stub_there H V memory ring0 ring3 uc s t u v x stub frame stack) quiet
      ∙ registers.write_other uc esp q frame_addr v x stack apart
      ∙ (ring3.write_mem_regs uc _ _ u v frame).regs_kept q
      ∙ (ring3.write_mem_regs uc _ _ t u stub).regs_kept q
      ∙ (ring3.map_regs uc _ _ _ w t mapped).regs_kept q

  -- Where the restore of the i386 state returns, in an engine in ring 0 that keeps the laws of its
  -- memory, of its registers and of an `iret` to ring 3, of a state whose values fit their
  -- registers and whose frame is one of a user process, it returns the saved instruction pointer,
  -- and every register that a snapshot has holds its saved value, but for `eflags`, of which this
  -- says nothing.
  pub dump_i386_cpu_state-saved32 :
      (s : I386State) (w w' : H.World) (entry : ℕ)
      → ring0 uc w
      → IsUserFrame s.regs
      → AreFitting (general_writes s.regs)
      → AreFitting (segment_writes s.regs)
      → I386.dump_i386_cpu_state H uc s w ≡ returned entry w'
      → (q : Reg) (value : ℕ) → saved32 s.regs q ≡ some value
      → (entry ≡ s.regs.eip) × (V.reg uc q w' ≡ value)
  unfolding calm touches saved32
  dump_i386_cpu_state-saved32 s w w' entry ring user general_fits segments_fit h q value has =
      let (t, u, v, x, table, general, entered, segments, read) =
        dump_i386_cpu_state_steps H uc s w w' entry h in
      let at_u =
        write_regs_ring (general_writes s.regs) t u general refl (dump_gdt_ring s w t table ring) in
      let last = write_regs-untouched H V registers uc (segment_writes s.regs) in
      let held : (q : Reg) (value : ℕ) → saved32 s.regs q ≡ some value → V.reg uc q x ≡ value =
        λ q value has. elim (saved32-Way s.regs q value has) [
          | by_segment wrote ↦
              write_regs_last H V registers uc (segment_writes s.regs) q value v x
                (saved32_plain s.regs q value has) segments_fit segments wrote
          | by_frame pop clear ↦
              last q v x segments clear ∙ enter_ring3_pops s u v q value entered at_u user pop
          | by_general wrote apart quiet clear ↦
              last q v x segments clear
              ∙ enter_ring3_other s u v q entered apart quiet
              ∙ write_regs_last H V registers uc (general_writes s.regs) q value t u
                  (saved32_plain s.regs q value has) general_fits general wrote
        ] in
      (
        registers.read_value uc eip entry x w' read ∙ held eip s.regs.eip refl,
        registers.read_other uc eip q entry x w' read ∙ held q value has,
      )
