-- ===== src/Loader/Writes.antt =====
-- A run of calls `PB_UC_CHECK(uc_reg_write(...))`, one for each register of a list, in its order.
use process_bridge.Base.{ℕ, List, [], ◌∷◌, Run, pure, ◌>>◌}
use process_bridge.Loader.Host.{Host, Reg}
use process_bridge.Loader.Check.{pb_uc_check}

module _ (H : Host) (uc : ℕ) where
  unfoldable pub write_regs : List (Reg × ℕ) → Run H.World (Unit {0})
  write_regs [] = pure tt
  write_regs ((r, v) ∷ writes) = do pb_uc_check (H.uc_reg_write uc r v); write_regs writes
