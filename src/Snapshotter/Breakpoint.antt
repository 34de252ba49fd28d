-- ===== src/Snapshotter/Breakpoint.antt =====
-- snapshotter/src/linux/breakpoint.c, for the x86_64 build.
pub mod Hit
pub mod Trap
pub mod Past
pub mod Start
use process_bridge.Base.{
  ℕ, Option, Bool, not, ◌||◌, Run, Outcome, pure, fatal_if, call, or_fatal, exited, if◌then◌else◌,
  ◌==◌, bit_and, bit_or, ◌+◌, ◌-◌, ◌%◌, ◌^◌, ◌>>=◌, ◌>>◌, true, fatal, List, false, effect,
}
use process_bridge.Common.X8664.{X8664Regs}

-- What `waitpid` says of the child, by the macros of <sys/wait.h>.
pub data Status : Type 0 where
  exit_status term_signal stop_signal other_status : ℕ → Status

-- `WIFEXITED(status) || WIFSIGNALED(status)`
abbrev pub has_ended : Status → Bool
has_ended (exit_status code) = true
has_ended (term_signal signal) = true
has_ended (stop_signal signal) = false
has_ended (other_status status) = false

-- `ptrace` by its requests, and the calls that start and await the child. A call that can fail by -1
-- gives no value or false. `fork` gives 0 to the child; `execve` is seen where it returns.
pub record Tracer (W : Type 0) : Type 0 where
  pub peek_text : ℕ → ℕ → W → Option ℕ × W
  pub poke_text : ℕ → ℕ → ℕ → W → Bool × W
  pub get_regs : ℕ → W → Option X8664Regs × W
  pub set_regs : ℕ → X8664Regs → W → Bool × W
  pub single_step : ℕ → W → Bool × W
  pub cont : ℕ → W → Bool × W
  pub waitpid : ℕ → W → Option Status × W
  pub fork : W → Option ℕ × W
  pub trace_me : W → Bool × W
  pub execve : List ℕ → List (List ℕ) → W → W

-- `breakpoint_t`
pub record Breakpoint : Type 0 where
  pub pid : ℕ
  pub hook_addr : ℕ
  pub old_word : ℕ

-- `PLACE_INT3_IN_FIRST_BYTE(word)`
unfoldable pub place_int3_in_first_byte : ℕ → ℕ
place_int3_in_first_byte word = bit_or (bit_and word (2 ^ 64 - 1 - 0xFF)) 0xCC

module _ {W : Type 0} (T : Tracer W) where
  -- A call that is checked for -1.
  unfoldable pub checked : (W → Bool × W) → Run W (Unit {0})
  checked f = do ok ← call f; fatal_if (not ok)

  -- `exit(EXIT_SUCCESS)` where the child has ended.
  unfoldable pub exit_if : Bool → Run W (Unit {0})
  exit_if ended = if ended then (λ w. exited 0 w) else pure tt

  unfoldable pub create_breakpoint : ℕ → ℕ → Run W Breakpoint
  create_breakpoint pid hook_addr = do
    word ← or_fatal (T.peek_text pid hook_addr)
    checked (T.poke_text pid hook_addr (place_int3_in_first_byte word))
    pure (record { pid = pid; hook_addr = hook_addr; old_word = word })

  -- The body of the test for a child that stands at the breakpoint already.
  unfoldable pub step_past : Breakpoint → Run W (Unit {0})
  step_past b = do
    checked (T.single_step b.pid)
    status ← or_fatal (T.waitpid b.pid)
    exit_if (has_ended status)
    checked (T.poke_text b.pid b.hook_addr b.old_word)

  -- `--(*pip)`, in 64 bits.
  abbrev pub rewound : X8664Regs → X8664Regs
  rewound regs = record regs { rip = (regs.rip + (2 ^ 64 - 1)) % 2 ^ 64 }

  -- What follows the `PTRACE_GETREGS` of a child that has stopped.
  unfoldable pub disarm : Breakpoint → Run W (Unit {0})
  disarm b = do
    regs ← or_fatal (T.get_regs b.pid)
    checked (T.set_regs b.pid (rewound regs))
    checked (T.poke_text b.pid b.hook_addr b.old_word)

  unfoldable pub execute_up_to_breakpoint : Breakpoint → Run W (Unit {0})
  execute_up_to_breakpoint b = do
    regs ← or_fatal (T.get_regs b.pid)
    if regs.rip == b.hook_addr then step_past b else pure tt
    checked (T.cont b.pid)
    status ← or_fatal (T.waitpid b.pid)
    exit_if (has_ended status)
    disarm b

  -- The end of `fork_child` in the parent, by the status of the child.
  unfoldable pub stopped_only : Status → Run W (Unit {0})
  stopped_only (exit_status code) = fatal
  stopped_only (term_signal signal) = fatal
  stopped_only (stop_signal signal) = pure tt
  stopped_only (other_status status) = fatal

  unfoldable pub child_side : List ℕ → List (List ℕ) → Run W ℕ
  child_side path argv = do checked T.trace_me; effect (T.execve path argv); fatal

  unfoldable pub parent_side : ℕ → Run W ℕ
  parent_side pid = do status ← or_fatal (T.waitpid pid); stopped_only status; pure pid

  -- The environment of the child is passed on as it is, and left out.
  unfoldable pub fork_child : List ℕ → List (List ℕ) → Run W ℕ
  fork_child path argv = do
    pid ← or_fatal T.fork
    if pid == 0 then child_side path argv else parent_side pid
