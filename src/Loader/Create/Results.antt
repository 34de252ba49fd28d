-- ===== src/Loader/Create/Results.antt =====
-- What the exported functions of the loader return.
use process_bridge.Base.{
  ◌≡◌, ℕ, ◌≢◌, ◌==◌, false, List, arith, Option, returned, >>-eq_returned, none, ◌⊎◌,
  fatal_if-eq_returned, true, some, Bool-cases, inr, if◌then◌else◌, inl,
}
use process_bridge.Loader.Host.{Host}
use process_bridge.Loader.Create.{
  pb_restore_snapshot, pb_create_from_snapshot, listed, supported_arch_modes,
}
use process_bridge.Common.UserDesc.{DescLayout}
use process_bridge.Loader.Check.{minus_one, pb_uc_check_value, pb_uc_check_value-eq_returned}
use process_bridge.Loader.Dump.{dump_snapshot}

is_not : (a b : ℕ) → (a == b) ≡ false → a ≢ b
is_not a b h e = ground arith

module _ (H : Host) (L : DescLayout) where
  -- A result is not the failure value.
  pb_restore_snapshot-no_failure :
      (uc : ℕ) (snapshot_path : List ℕ) (w w' : H.World) (entry : ℕ)
      → pb_restore_snapshot H L uc snapshot_path w ≡ returned entry w'
      → entry ≢ minus_one
  unfolding pb_restore_snapshot
  pb_restore_snapshot-no_failure uc snapshot_path w w' entry h =
      let (point, u, dumped, rest) = >>-eq_returned (dump_snapshot H L uc snapshot_path w) _ h in
      let (passed, last) = fatal_if-eq_returned (point == minus_one) u _ rest in
      let same : point ≡ entry = cc in is_not entry minus_one (rw same at passed)

  -- The only failure that `pb_create_from_snapshot` returns is that of an architecture and a mode
  -- that the table does not list; then nothing was called. Where it lists them, an engine is
  -- returned with an entry point, and it is the second that `uc_open` gave: the first is lost.
  pub pb_create_from_snapshot-engine :
      (arch mode : ℕ) (snapshot_path : List ℕ) (w w' : H.World) (entry : ℕ) (engine : Option ℕ)
      → pb_create_from_snapshot H L arch mode snapshot_path w ≡ returned (entry, engine) w'
      → ((listed arch mode (supported_arch_modes H) ≡ false)
          × (entry ≡ minus_one)
          × (engine ≡ none)
          × (w' ≡ w))
        ⊎ ((listed arch mode (supported_arch_modes H) ≡ true)
            × (entry ≢ minus_one)
            × (first second : ℕ) × (u v : H.World) × (H.uc_open arch mode w ≡ ((0, first), u))
            × (H.uc_open arch mode u ≡ ((0, second), v))
            × (engine ≡ some second))
  unfolding pb_create_from_snapshot
  pb_create_from_snapshot-engine arch mode snapshot_path w w' entry engine h =
      elim (Bool-cases (listed arch mode (supported_arch_modes H))) [
        | inr unlisted ↦ let e = rw (if◌then◌else◌, unlisted) at h in inl (unlisted, cc, cc, cc)
        | inl known ↦
            let e = rw (if◌then◌else◌, known) at h in
            let (first, u, one, e1) =
              >>-eq_returned (pb_uc_check_value (H.uc_open arch mode) w) _ e in
            let (second, v, two, e2) =
              >>-eq_returned (pb_uc_check_value (H.uc_open arch mode) u) _ e1 in
            let (point, t, restored, e3) =
              >>-eq_returned (pb_restore_snapshot H L second snapshot_path v) _ e2 in
            let no_failure =
              pb_restore_snapshot-no_failure second snapshot_path v t point restored in
            let same : point ≡ entry = cc in
            inr (
              known,
              rw same at no_failure,
              first,
              second,
              u,
              v,
              pb_uc_check_value-eq_returned _ w u first one,
              pb_uc_check_value-eq_returned _ u v second two,
              cc,
            )
      ]
