-- ===== src/Loader/Engine/Keeps.antt =====
-- Runs that leave an address of the engine's memory as it was, and the registers that they write.
use process_bridge.Loader.Host.{Host, Reg}
use process_bridge.Loader.Engine.{View, HasMemory, KeepsAt}
use process_bridge.Base.{
  ℕ, returned, Outcome, Bool, ◌≡◌, ◌∙◌, ap, Run, List, fatal_if, and_then, [], if◌then◌else◌, ◌∷◌,
  true, >>-eq_returned, false,
}
use process_bridge.Loader.Writes.{write_regs}
use process_bridge.Loader.Check.{
  pb_uc_check, pb_uc_check_value, pb_uc_check_value-eq_returned, pb_uc_check-eq_returned,
}

module _ (H : Host) (V : View H) (uc x : ℕ) where
  -- If the run returns, it has changed nothing at the address.
  pub record KeepsFrom {A : Type 0} (w : H.World) (o : Outcome H.World A) : Type 0 where
    pub kept : (a : A) (w' : H.World) → o ≡ returned a w' → KeepsAt H V uc x w w'

  pub KeepsAt-trans :
      (w u w' : H.World) → KeepsAt H V uc x w u → KeepsAt H V uc x u w' → KeepsAt H V uc x w w'
  KeepsAt-trans w u w' one two = record {
    byte_kept = two.byte_kept ∙ one.byte_kept;
    perms_kept = two.perms_kept ∙ one.perms_kept;
  }

  pub KeepsAt-refl : (w w' : H.World) → w' ≡ w → KeepsAt H V uc x w w'
  KeepsAt-refl w w' e = record { byte_kept = ap (V.byte uc x) e; perms_kept = ap (V.perms uc x) e }

  pub and_then-KeepsFrom :
      {A B : Type 0} (w : H.World) (o : Outcome H.World A) (f : A → Run H.World B)
      → KeepsFrom w o
      → ((a : A) (v : H.World) → KeepsFrom v (f a v))
      → KeepsFrom w (and_then o f)
  and_then-KeepsFrom w o f h k = record {
    kept = λ b w' e.
        let (a, v, first, rest) = >>-eq_returned o f e in
        KeepsAt-trans w v w' (h.kept a v first) ((k a v).kept b w' rest);
  }

  pub returned-KeepsFrom : {A : Type 0} (a : A) (w : H.World) → KeepsFrom w (returned a w)
  returned-KeepsFrom a w = record { kept = λ b w' e. KeepsAt-refl w w' (cc) }

  pub fatal_if-KeepsFrom : (b : Bool) (w : H.World) → KeepsFrom w (fatal_if b w)
  fatal_if-KeepsFrom true w = record { kept = λ b w' e. cc }
  fatal_if-KeepsFrom false w = returned-KeepsFrom tt w

  pub checked_keeps :
      (f : H.World → ℕ × H.World) (w : H.World)
      → ((w' : H.World) → f w ≡ (0, w') → KeepsAt H V uc x w w')
      → KeepsFrom w (pb_uc_check f w)
  checked_keeps f w h = record { kept = λ _ w' e. h w' (pb_uc_check-eq_returned f w w' e) }

  pub if-KeepsFrom :
      {A : Type 0} (b : Bool) (m n : Run H.World A) (w : H.World)
      → KeepsFrom w (m w)
      → KeepsFrom w (n w)
      → KeepsFrom w ((if b then m else n) w)
  if-KeepsFrom true m n w h k = h
  if-KeepsFrom false m n w h k = k

module _ (H : Host) (V : View H) (memory : HasMemory H V) (uc x : ℕ) where
  pub write_regs-KeepsFrom :
      (writes : List (Reg × ℕ)) (w : H.World) → KeepsFrom H V uc x w (write_regs H uc writes w)
  unfolding write_regs
  write_regs-KeepsFrom [] w = returned-KeepsFrom H V uc x tt w
  write_regs-KeepsFrom ((r, v) ∷ writes) w =
      and_then-KeepsFrom H V uc x w (pb_uc_check (H.uc_reg_write uc r v) w) _
        (checked_keeps H V uc x _ w λ w' e. memory.reg_keeps uc r v x w w' e)
        λ _ u. write_regs-KeepsFrom writes u

  pub reg_read-KeepsFrom :
      (r : Reg) (w : H.World) → KeepsFrom H V uc x w (pb_uc_check_value (H.uc_reg_read uc r) w)
  reg_read-KeepsFrom r w = record {
    kept = λ value w' e.
        memory.read_keeps uc r value x w w' (pb_uc_check_value-eq_returned _ w w' value e);
  }
