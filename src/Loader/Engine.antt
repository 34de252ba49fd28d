-- ===== src/Loader/Engine.antt =====
-- What the loader relies on in Unicorn: how a call that gives no error changes the memory, the
-- permissions and the registers of an engine.
pub mod Memory
pub mod Keeps
pub mod Cpu
pub mod Ring3
pub mod Cpu32
pub mod Progress
pub mod Live
use process_bridge.Base.{
  ◌≡◌, ℕ, Option, true, Bool, leb, none, if◌then◌else◌, ◌&&◌, ltb, some, false, ◌+◌, List, length,
  get_or, ◌-◌,
}
use process_bridge.Loader.Host.{Host, Reg, Mmr}

-- `perms` is `none` where nothing is mapped.
pub record View (H : Host) : Type 0 where
  pub byte : ℕ → ℕ → H.World → ℕ
  pub perms : ℕ → ℕ → H.World → Option ℕ
  pub reg : ℕ → Reg → H.World → ℕ

-- `start <= x < start + size`
abbrev pub inside : ℕ → ℕ → ℕ → Bool
inside start size x = leb start x && ltb x (start + size)

module _ (H : Host) (V : View H) where
  -- A step that changes nothing at an address.
  pub record KeepsAt (uc x : ℕ) (w w' : H.World) : Type 0 where
    pub byte_kept : V.byte uc x w' ≡ V.byte uc x w
    pub perms_kept : V.perms uc x w' ≡ V.perms uc x w

  -- `uc_mem_map` takes free addresses, `uc_mem_write` stores bytes, `uc_mem_protect` replaces
  -- permissions, and writing a register leaves the memory alone.
  pub record HasMemory : Type 0 where
    pub map_free :
        (uc start size prot x : ℕ) (w w' : H.World)
        → H.uc_mem_map uc start size prot w ≡ (0, w')
        → inside start size x ≡ true
        → V.perms uc x w ≡ none
    pub map_perms :
        (uc start size prot x : ℕ) (w w' : H.World)
        → H.uc_mem_map uc start size prot w ≡ (0, w')
        → V.perms uc x w' ≡ (if inside start size x then some prot else V.perms uc x w)
    pub map_byte :
        (uc start size prot x : ℕ) (w w' : H.World)
        → H.uc_mem_map uc start size prot w ≡ (0, w')
        → inside start size x ≡ false
        → V.byte uc x w' ≡ V.byte uc x w
    pub write_byte :
        (uc start : ℕ) (bytes : List ℕ) (x : ℕ) (w w' : H.World)
        → H.uc_mem_write uc start bytes w ≡ (0, w')
        → V.byte uc x w'
          ≡ (if inside start (length bytes) x then get_or bytes (x - start) 0 else V.byte uc x w)
    pub write_perms :
        (uc start : ℕ) (bytes : List ℕ) (x : ℕ) (w w' : H.World)
        → H.uc_mem_write uc start bytes w ≡ (0, w')
        → V.perms uc x w' ≡ V.perms uc x w
    pub protect_perms :
        (uc start size prot x : ℕ) (w w' : H.World)
        → H.uc_mem_protect uc start size prot w ≡ (0, w')
        → V.perms uc x w' ≡ (if inside start size x then some prot else V.perms uc x w)
    pub protect_byte :
        (uc start size prot x : ℕ) (w w' : H.World)
        → H.uc_mem_protect uc start size prot w ≡ (0, w')
        → V.byte uc x w' ≡ V.byte uc x w
    pub reg_keeps :
        (uc : ℕ) (r : Reg) (value x : ℕ) (w w' : H.World)
        → H.uc_reg_write uc r value w ≡ (0, w')
        → KeepsAt uc x w w'
    pub gdtr_keeps :
        (uc : ℕ) (mmr : Mmr) (x : ℕ) (w w' : H.World)
        → H.uc_gdtr_write uc mmr w ≡ (0, w')
        → KeepsAt uc x w w'
    pub read_keeps :
        (uc : ℕ) (r : Reg) (value x : ℕ) (w w' : H.World)
        → H.uc_reg_read uc r w ≡ ((0, value), w')
        → KeepsAt uc x w w'
