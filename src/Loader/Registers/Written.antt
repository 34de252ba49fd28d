-- ===== src/Loader/Registers/Written.antt =====
-- The registers after a run of writes.
use process_bridge.Loader.Host.{Reg, Host, eflags}
use process_bridge.Base.{
  List, ℕ, Bool, Option, none, true, ◌≡◌, returned, [], ◌∷◌, ap, false, if◌then◌else◌, not, some,
  >>-eq_returned, ◌&&◌, arith, Bool-cases, inr, ◌∙◌, inl, sym,
}
use process_bridge.Loader.Engine.{View}
use process_bridge.Loader.Registers.{HasRegisters, reg_eq, touches, reg_eq→eq, AreFitting}
use process_bridge.Loader.Writes.{write_regs}
use process_bridge.Loader.Check.{pb_uc_check, pb_uc_check-eq_returned}

-- No write of the list touches the register.
unfoldable pub untouched : Reg → List (Reg × ℕ) → Bool
untouched q [] = true
untouched q ((r, v) ∷ writes) = not (touches r q) && untouched q writes

-- The value that the last write of a register gives it, if no later write touches it.
unfoldable pub last_write : Reg → List (Reg × ℕ) → Option ℕ
last_write q [] = none
last_write q ((r, v) ∷ writes) =
    let rest = last_write q writes in
    if untouched q writes then (if reg_eq r q then some v else none) else rest

module _ (H : Host) (V : View H) (registers : HasRegisters H V) (uc : ℕ) where
  pub write_regs-untouched :
      (writes : List (Reg × ℕ)) (q : Reg) (w w' : H.World)
      → write_regs H uc writes w ≡ returned tt w'
      → untouched q writes ≡ true
      → V.reg uc q w' ≡ V.reg uc q w
  unfolding write_regs untouched
  write_regs-untouched [] q w w' h clear = let same : w' ≡ w = cc in ap (V.reg uc q) same
  write_regs-untouched ((r, v) ∷ writes) q w w' h clear =
      let (_, u, first, rest) = >>-eq_returned (pb_uc_check (H.uc_reg_write uc r v) w) _ h in
      let one = pb_uc_check-eq_returned _ w u first in
      write_regs-untouched writes q u w' rest (ground arith)
      ∙ registers.write_other uc r q v w u one (ground arith)

  pub write_regs_last :
      (writes : List (Reg × ℕ)) (q : Reg) (value : ℕ) (w w' : H.World)
      → reg_eq q eflags ≡ false
      → AreFitting writes
      → write_regs H uc writes w ≡ returned tt w'
      → last_write q writes ≡ some value
      → V.reg uc q w' ≡ value
  unfolding write_regs last_write
  write_regs_last [] q value w w' plain fits h last = cc
  write_regs_last ((r, v) ∷ writes) q value w w' plain fits h last =
      let (_, u, first, rest) = >>-eq_returned (pb_uc_check (H.uc_reg_write uc r v) w) _ h in
      let one = pb_uc_check-eq_returned _ w u first in
      elim (Bool-cases (untouched q writes)) [
        | inr later ↦
            write_regs_last writes q value u w' plain fits.1 rest
              (rw (later, if◌then◌else◌) at last)
        | inl clear ↦
            write_regs-untouched writes q u w' rest clear ∙ elim (Bool-cases (reg_eq r q)) [
              | inl same ↦
                  let e : r ≡ q = reg_eq→eq r q same in
                  let values : v ≡ value = cc (rw (clear, same, if◌then◌else◌) at last) in
                  ap (λ p. V.reg uc p u) (sym e)
                  ∙ registers.write_self uc r v w u one (rw e plain) fits.0
                  ∙ values
              | inr other ↦ cc (rw (clear, other, if◌then◌else◌) at last)
            ]
      ]
