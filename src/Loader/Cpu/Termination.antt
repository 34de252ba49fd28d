-- ===== src/Loader/Cpu/Termination.antt =====
-- Restoring the CPU state, and with it the whole restore, comes to an end.
use process_bridge.Base.{endings, ℕ, List, Ends, ◌∷◌, and_then-Ends, []}
use process_bridge.Loader.X8664
use process_bridge.Loader.I386
use process_bridge.Loader.Host.{Host, Reg}
use process_bridge.Common.I386State.{I386State}
use process_bridge.Loader.Check.{pb_uc_check-Ends, pb_uc_check_value-Ends, pb_uc_check}
use process_bridge.Loader.Writes.{write_regs}
use process_bridge.Loader.Cpu.{dump_cpu_state, CpuState}
use process_bridge.Common.X8664.{X8664Regs}
use process_bridge.Common.UserDesc.{UserDesc, DescLayout}

ruleset checked_endings = (endings, pb_uc_check-Ends, pb_uc_check_value-Ends)

gdt_store-Ends :
    {W : Type 0} (index desc : ℕ) (gdt : List ℕ) (w : W) → Ends (I386.gdt_store index desc gdt w)
unfolding I386.gdt_store
gdt_store-Ends index desc gdt w = search endings

store_tls-Ends :
    {W : Type 0} (tls : List UserDesc) (gdt : List ℕ) (w : W) → Ends (I386.store_tls tls gdt w)
unfolding I386.store_tls
store_tls-Ends [] gdt w = tt
store_tls-Ends (d ∷ tls) gdt w =
    and_then-Ends (I386.gdt_store _ _ gdt w) _ (gdt_store-Ends _ _ gdt w)
      λ g w'. store_tls-Ends tls g w'

data_desc_for-Ends : {W : Type 0} (cs_index : ℕ) (w : W) → Ends (I386.data_desc_for cs_index w)
unfolding I386.data_desc_for
data_desc_for-Ends cs_index w = search endings

module _ (H : Host) (uc : ℕ) where
  write_regs-Ends : (writes : List (Reg × ℕ)) (w : H.World) → Ends (write_regs H uc writes w)
  unfolding write_regs
  write_regs-Ends [] w = tt
  write_regs-Ends ((r, v) ∷ writes) w =
      and_then-Ends (pb_uc_check _ w) _ (pb_uc_check-Ends _ w) λ _ w'. write_regs-Ends writes w'

  x8664_gdt-Ends : (s : X8664Regs) (w : H.World) → Ends (X8664.dump_gdt H uc s w)
  unfolding X8664.dump_gdt
  x8664_gdt-Ends s w = search checked_endings depth 14

  x8664_regs-Ends : (s : X8664Regs) (w : H.World) → Ends (X8664.dump_regs H uc s w)
  unfolding X8664.dump_regs
  x8664_regs-Ends s w = search (endings, write_regs-Ends)

  x8664-Ends : (s : X8664Regs) (w : H.World) → Ends (X8664.dump_x86_64_cpu_state H uc s w)
  unfolding X8664.dump_x86_64_cpu_state
  x8664-Ends s w = search (checked_endings, x8664_gdt-Ends, x8664_regs-Ends) depth 10

  i386_gdt-Ends : (s : I386State) (w : H.World) → Ends (I386.dump_gdt H uc s w)
  unfolding I386.dump_gdt
  i386_gdt-Ends s w =
      search (checked_endings, data_desc_for-Ends, gdt_store-Ends, store_tls-Ends) depth 14

  enter_ring3-Ends : (s : I386State) (w : H.World) → Ends (I386.enter_ring3 H uc s w)
  unfolding I386.enter_ring3
  enter_ring3-Ends s w = search checked_endings depth 14

  i386_regs-Ends : (s : I386State) (w : H.World) → Ends (I386.dump_regs H uc s w)
  unfolding I386.dump_regs
  i386_regs-Ends s w = search (endings, write_regs-Ends, enter_ring3-Ends) depth 10

  i386-Ends : (s : I386State) (w : H.World) → Ends (I386.dump_i386_cpu_state H uc s w)
  unfolding I386.dump_i386_cpu_state
  i386-Ends s w = search (checked_endings, i386_gdt-Ends, i386_regs-Ends) depth 10

  pub dump_cpu_state-Ends :
      (L : DescLayout) (s : CpuState) (w : H.World) → Ends (dump_cpu_state H L uc s w)
  unfolding dump_cpu_state
  dump_cpu_state-Ends L s w = search (endings, i386-Ends, x8664-Ends) depth 8
