-- ===== src/Snapshotter/Main.antt =====
-- snapshotter/src/main.c
pub mod Argv
pub mod Written
pub mod Memory
use process_bridge.Base.{
  ℕ, zero, suc, Option, some, none, List, [], ◌∷◌, Bool, not, ◌||◌, Run, pure, fatal, fatal_if,
  call, effect, set, length, ub, get_or, ltb, if◌then◌else◌, ◌+◌, ◌-◌, ◌*◌, ◌%◌, ◌^◌, ◌>>=◌, ◌>>◌,
}
use process_bridge.Snapshotter.Kernel.{Kernel}
use process_bridge.Snapshotter.Elf.{Elf}
use process_bridge.Snapshotter.Breakpoint.{
  Tracer, fork_child, create_breakpoint, execute_up_to_breakpoint, Breakpoint,
}
use process_bridge.Snapshotter.ProcessInfo.{get_image_base}
use process_bridge.Snapshotter.Capture.{create_snapshot}
use process_bridge.Snapshotter.Mappings.{dump_snapshot}

-- What `strtoull` in base 16 gives: the number, whether `errno` was set, whether the whole text was
-- read, and whether any of it was.
pub record Number : Type 0 where
  pub value : ℕ
  pub out_of_range : Bool
  pub whole : Bool
  pub any_digit : Bool

-- What `main` calls beside the parts of the program, and what the memory that `malloc` gives for the
-- array of arguments held before. The results of `kill` are only logged.
pub record Shell (W : Type 0) : Type 0 where
  pub strtoull : List ℕ → Number
  pub kill : ℕ → W → W
  pub held : ℕ → Option (List ℕ)

-- The memory of `malloc` as an array of `places` pointers from the place `i` on: it may hold
-- anything.
unfoldable pub fresh_array : (ℕ → Option (List ℕ)) → ℕ → ℕ → List (Option (List ℕ))
fresh_array held zero i = []
fresh_array held (suc places) i = held i ∷ fresh_array held places (i + 1)

-- `child_argv[i] = value`; a store outside of the array is undefined.
unfoldable pub store_arg :
    {W : Type 0} → ℕ → Option (List ℕ) → List (Option (List ℕ)) → Run W (List (Option (List ℕ)))
store_arg i value child_argv =
    if ltb i (length child_argv) then pure (set child_argv i value) else ub

-- `for (int i = 0; i < extra_argc; ++i) child_argv[1 + i] = argv[3 + i];`, for the rounds left.
unfoldable pub copy_args :
    {W : Type 0} → ℕ → ℕ → List (List ℕ) → List (Option (List ℕ)) → Run W (List (Option (List ℕ)))
copy_args zero i argv child_argv = pure child_argv
copy_args (suc rounds) i argv child_argv = do
  stored ← store_arg (1 + i) (some (get_or argv (3 + i) [])) child_argv
  copy_args rounds (i + 1) argv stored

-- The array of arguments for the child, in memory that held anything; `none` is `NULL`.
unfoldable pub child_args :
    {W : Type 0} → (ℕ → Option (List ℕ)) → List (List ℕ) → Run W (List (Option (List ℕ)))
child_args held argv = do
  let extra_argc = length argv - 3
  first ← store_arg 0 (some (get_or argv 2 [])) (fresh_array held (extra_argc + 2) 0)
  copied ← copy_args extra_argc 0 argv first
  store_arg (1 + extra_argc) none copied

-- The arguments up to the `NULL`, as `execve` reads them; it would read on past an array without.
unfoldable pub until_null : {W : Type 0} → List (Option (List ℕ)) → Run W (List (List ℕ))
until_null [] = ub
until_null (none ∷ args) = pure []
until_null (some arg ∷ args) = do more ← until_null args; pure (arg ∷ more)

-- "ql_snapshot"
abbrev pub snapshot_name : List ℕ
snapshot_name = 113 ∷ 108 ∷ 95 ∷ 115 ∷ 110 ∷ 97 ∷ 112 ∷ 115 ∷ 104 ∷ 111 ∷ 116 ∷ []

module _ (K : Kernel) (T : Tracer K.World) (E : Elf K.World) (P : Shell K.World) where
  -- From the breakpoint on.
  unfoldable pub run_to_snapshot : ℕ → ℕ → Breakpoint → Run K.World ℕ
  run_to_snapshot fuel pid breakpoint = do
    execute_up_to_breakpoint T breakpoint
    snapshot ← create_snapshot T breakpoint
    dump_snapshot K fuel snapshot pid snapshot_name
    effect (P.kill pid)
    effect (λ w. (T.waitpid pid w).1)
    pure 0

  -- What follows the reading of the arguments. `fuel` bounds the lines of /proc/<pid>/maps.
  unfoldable pub snapshot_child : ℕ → ℕ → List (List ℕ) → Run K.World ℕ
  snapshot_child fuel addr argv = do
    let child = get_or argv 2 []
    allocated ← call (K.malloc ((length argv - 3 + 2) * 8))
    fatal_if (not allocated)
    child_argv ← child_args P.held argv
    args ← until_null child_argv
    pid ← fork_child T child args
    image_base ← get_image_base K E fuel child pid
    breakpoint ← create_breakpoint T pid ((image_base + addr) % 2 ^ 64)
    run_to_snapshot fuel pid breakpoint

  unfoldable pub main : ℕ → List (List ℕ) → Run K.World ℕ
  main fuel argv = if ltb (length argv) 3 then pure 1 else (do
    let offset = P.strtoull (get_or argv 1 [])
    fatal_if (offset.out_of_range || not offset.whole || not offset.any_digit)
    snapshot_child fuel offset.value argv)
