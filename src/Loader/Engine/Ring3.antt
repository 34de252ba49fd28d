-- ===== src/Loader/Engine/Ring3.antt =====
-- The engine on the trampoline of loader/src/i386/cpu_state_dump.c: what the `iret` there does, and
-- what the calls that prepare it leave alone.
use process_bridge.Loader.Host.{Host, Reg, eip, cs, eflags, esp, ss, Mmr, ds, es, fs, gs}
use process_bridge.Common.I386.{I386Regs}
use process_bridge.Base.{
  Bool, Option, ℕ, some, ◌<◌, ◌≡◌, ◌||◌, none, ◌^◌, List, ◌%◌, false, ◌+◌, [], ◌∷◌, get_or,
}
use process_bridge.Base.Bytes.{Fit, words_bytes}
use process_bridge.Loader.Engine.{View, inside, KeepsAt}
use process_bridge.Loader.Registers.{touches}
use process_bridge.Loader.Gdt.{pb_gdt_addr, pb_gdt_size}

-- The words that `iret` pops on its way to ring 3, from the top of the stack on.
abbrev pub popped_words : I386Regs → List ℕ
popped_words r = r.eip ∷ r.xcs ∷ r.eflags ∷ r.esp ∷ r.xss ∷ []

-- The fields of the frame that `iret` pops fit the instruction: a code selector of ring 3, and words
-- and selectors that fit their registers.
pub record IsUserFrame (r : I386Regs) : Type 0 where
  pub frame_fits : Fit 4 (popped_words r)
  pub code_fits : r.xcs < 2 ^ 16
  pub stack_fits : r.xss < 2 ^ 16
  pub user_code : r.xcs % 4 ≡ 3

-- What an `iret` to ring 3 gives a register, but for `eflags`, of which it may keep bits.
unfoldable pub popped : I386Regs → Reg → Option ℕ
popped r eip = some r.eip
popped r cs = some r.xcs
popped r esp = some r.esp
popped r ss = some r.xss
popped r _ = none

-- An `iret` to ring 3 may change the register: it loads five, and clears data segments that ring 3
-- may not use.
unfoldable pub iret_changes : Reg → Bool
iret_changes q =
    touches eip q
    || touches cs q
    || touches eflags q
    || touches esp q
    || touches ss q
    || touches ds q
    || touches es q
    || touches fs q
    || touches gs q

-- `ring0 uc w`: the engine `uc` is as `uc_open` leaves its privilege and its code and stack
-- segments, that is in ring 0 with both segments based at 0.
module _ (H : Host) (V : View H) (ring0 : ℕ → H.World → Type 0) where
  -- A step that leaves the registers and the ring alone.
  pub record KeepsRegs (uc : ℕ) (w w' : H.World) : Type 0 where
    pub regs_kept : (q : Reg) → V.reg uc q w' ≡ V.reg uc q w
    pub ring_kept : ring0 uc w → ring0 uc w'

  pub record HasRing3 : Type 0 where
    pub map_regs :
        (uc start size prot : ℕ) (w w' : H.World)
        → H.uc_mem_map uc start size prot w ≡ (0, w')
        → KeepsRegs uc w w'
    pub write_mem_regs :
        (uc start : ℕ) (bytes : List ℕ) (w w' : H.World)
        → H.uc_mem_write uc start bytes w ≡ (0, w')
        → KeepsRegs uc w w'
    pub protect_regs :
        (uc start size prot : ℕ) (w w' : H.World)
        → H.uc_mem_protect uc start size prot w ≡ (0, w')
        → KeepsRegs uc w w'
    pub unmap_regs :
        (uc start size : ℕ) (w w' : H.World)
        → H.uc_mem_unmap uc start size w ≡ (0, w')
        → KeepsRegs uc w w'
    pub unmap_keeps :
        (uc start size x : ℕ) (w w' : H.World)
        → H.uc_mem_unmap uc start size w ≡ (0, w')
        → inside start size x ≡ false
        → KeepsAt H V uc x w w'
    pub gdtr_regs :
        (uc : ℕ) (mmr : Mmr) (w w' : H.World)
        → H.uc_gdtr_write uc mmr w ≡ (0, w')
        → KeepsRegs uc w w'
    pub write_ring :
        (uc : ℕ) (r : Reg) (value : ℕ) (w w' : H.World)
        → H.uc_reg_write uc r value w ≡ (0, w')
        → touches cs r ≡ false
        → touches ss r ≡ false
        → touches eflags r ≡ false
        → ring0 uc w
        → ring0 uc w'
    -- One instruction, an `iret` (0xCF) to ring 3, changes no memory but marks in the table of
    -- descriptors, loads the five words at the stack pointer, and leaves the other registers alone.
    pub iret_keeps :
        (uc begin x : ℕ) (w w' : H.World)
        → H.uc_emu_start uc begin 0 0 1 w ≡ (0, w')
        → V.byte uc begin w ≡ 0xCF
        → inside pb_gdt_addr pb_gdt_size x ≡ false
        → KeepsAt H V uc x w w'
    pub iret_pops :
        (uc begin : ℕ) (r : I386Regs) (w w' : H.World)
        → H.uc_emu_start uc begin 0 0 1 w ≡ (0, w')
        → V.byte uc begin w ≡ 0xCF
        → ring0 uc w
        → IsUserFrame r
        → ((i : ℕ)
            → i < 20
            → V.byte uc (V.reg uc esp w + i) w ≡ get_or (words_bytes 4 (popped_words r)) i 0)
        → (q : Reg) (value : ℕ) → popped r q ≡ some value
        → V.reg uc q w' ≡ value
    pub iret_other :
        (uc begin : ℕ) (q : Reg) (w w' : H.World)
        → H.uc_emu_start uc begin 0 0 1 w ≡ (0, w')
        → V.byte uc begin w ≡ 0xCF
        → iret_changes q ≡ false
        → V.reg uc q w' ≡ V.reg uc q w
