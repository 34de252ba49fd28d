-- ===== src/Loader/Create.antt =====
-- loader/src/loader.c: the functions that the library exports.
pub mod Results
use process_bridge.Base.{
  ℕ, List, Bool, false, ◌&&◌, ◌||◌, Option, none, some, Run, ◌∷◌, ◌==◌, [], if◌then◌else◌, ◌>>=◌,
  ◌>>◌, fatal_if, pure,
}
use process_bridge.Common.UserDesc.{DescLayout}
use process_bridge.Loader.Host.{Host}
use process_bridge.Loader.Dump.{dump_snapshot}
use process_bridge.Loader.Check.{pb_uc_check_value, minus_one}

module _ (H : Host) where
  -- `supported_arch_modes`
  abbrev pub supported_arch_modes : List (ℕ × ℕ)
  supported_arch_modes = (H.uc_arch_x86, H.uc_mode_32) ∷ (H.uc_arch_x86, H.uc_mode_64) ∷ []

-- The search of the table for an architecture and a mode.
unfoldable pub listed : ℕ → ℕ → List (ℕ × ℕ) → Bool
listed arch mode [] = false
listed arch mode ((a, m) ∷ table) = arch == a && mode == m || listed arch mode table

module _ (H : Host) (L : DescLayout) where
  unfoldable pub pb_restore_snapshot : ℕ → List ℕ → Run H.World ℕ
  pb_restore_snapshot uc snapshot_path = do
    entry_point ← dump_snapshot H L uc snapshot_path
    fatal_if (entry_point == minus_one)
    pure entry_point

  -- The result is the value returned and what `*engine` is left as, `none` for `NULL`. Both calls
  -- of `uc_open` give an engine, and `*engine` keeps the second.
  unfoldable pub pb_create_from_snapshot : ℕ → ℕ → List ℕ → Run H.World (ℕ × Option ℕ)
  pb_create_from_snapshot arch mode snapshot_path =
      if listed arch mode (supported_arch_modes H)
      then (do
        first ← pb_uc_check_value (H.uc_open arch mode)
        engine ← pb_uc_check_value (H.uc_open arch mode)
        entry_point ← pb_restore_snapshot engine snapshot_path
        pure (entry_point, some engine))
      else pure (minus_one, none)
