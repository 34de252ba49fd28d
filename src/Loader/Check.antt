-- ===== src/Loader/Check.antt =====
-- loader/include/uc_utils.h: the check of every call of Unicorn.
use process_bridge.Base.{
  ℕ, ◌≡◌, returned, exited, Run, ◌==◌, if◌then◌else◌, arith, Ends, inl, Bool-cases, inr, and_then,
  IsDefined, returned-IsDefined, >>-eq_returned, exited-IsDefined,
}

-- `(uint64_t)-1`, the loader's failure value.
abbrev pub minus_one : ℕ
minus_one = 0xffff_ffff_ffff_ffff

module _ {W : Type 0} where
  -- `PB_UC_CHECK`: its `return -1` is not reached, for `LOG_FATAL` exits.
  unfoldable pub pb_uc_check : (W → ℕ × W) → Run W (Unit {0})
  pb_uc_check f w = let (err, w') = f w in if err == 0 then returned tt w' else exited 1 w'

  -- `PB_UC_CHECK` of a call that also fills a variable.
  unfoldable pub pb_uc_check_value : (W → (ℕ × ℕ) × W) → Run W ℕ
  pb_uc_check_value f w =
      let ((err, value), w') = f w in if err == 0 then returned value w' else exited 1 w'

  -- A check that is passed was made of a call that gave no error.
  pub pb_uc_check-eq_returned :
      (f : W → ℕ × W) (w w' : W) → pb_uc_check f w ≡ returned tt w' → f w ≡ (0, w')
  unfolding pb_uc_check
  pb_uc_check-eq_returned f w w' h = ground arith

  pub pb_uc_check-Ends : (f : W → ℕ × W) (w : W) → Ends (pb_uc_check f w)
  unfolding pb_uc_check
  pb_uc_check-Ends f w = elim (Bool-cases ((f w).0 == 0)) [
    | inl ok ↦ rw ok tt
    | inr failed ↦ rw failed tt
  ]

  pub pb_uc_check_value-Ends : (f : W → (ℕ × ℕ) × W) (w : W) → Ends (pb_uc_check_value f w)
  unfolding pb_uc_check_value
  pb_uc_check_value-Ends f w = elim (Bool-cases ((f w).0.0 == 0)) [
    | inl ok ↦ rw ok tt
    | inr failed ↦ rw failed tt
  ]

  pub pb_uc_check_value-eq_returned :
      (f : W → (ℕ × ℕ) × W) (w w' : W) (value : ℕ)
      → pb_uc_check_value f w ≡ returned value w'
      → f w ≡ ((0, value), w')
  unfolding pb_uc_check_value
  pb_uc_check_value-eq_returned f w w' value h = ground arith

  -- A run that returns passed its first check.
  pub pb_uc_check_passed :
      {B : Type 0} (f : W → ℕ × W) (w : W) (k : Unit {0} → Run W B) {b : B} {w' : W}
      → and_then (pb_uc_check f w) k ≡ returned b w'
      → (u : W) × (f w ≡ (0, u)) × (k tt u ≡ returned b w')
  pb_uc_check_passed f w k h =
      let (_, u, first, rest) = >>-eq_returned (pb_uc_check f w) k h in
      (u, pb_uc_check-eq_returned f w u first, rest)

  pub pb_uc_check-IsDefined : (f : W → ℕ × W) (w : W) → IsDefined (pb_uc_check f w)
  unfolding pb_uc_check
  pb_uc_check-IsDefined f w = elim (Bool-cases ((f w).0 == 0)) [
    | inl ok ↦ rw ok (returned-IsDefined tt (f w).1)
    | inr failed ↦ rw failed (exited-IsDefined 1 (f w).1)
  ]
