-- ===== src/Tests/Tracee.antt =====
-- A concrete child with which the breakpoint can be run.
use process_bridge.Base.{[], refl, ◌≡◌, ◌≢◌, ℕ, some, true, returned, arith}
use process_bridge.Common.X8664.{X8664Regs}
use process_bridge.Snapshotter.Breakpoint.{
  Tracer, Breakpoint, create_breakpoint, execute_up_to_breakpoint, place_int3_in_first_byte,
  checked, exit_if, disarm, stop_signal, fork_child, step_past, parent_side, stopped_only,
}
use process_bridge.Snapshotter.Breakpoint.Hit.{
  Child, HasChild, execute_up_to_breakpoint-create_breakpoint,
}
use process_bridge.Tests.Samples.{sample_regs}
use process_bridge.Snapshotter.Breakpoint.Start.{fork_child-stopped}
use process_bridge.Snapshotter.Breakpoint.Past.{execute_up_to_breakpoint-unarmed}

-- The word at the hook 0x401000, and the registers.
record Tracee : Type 0 where
  pub word : ℕ
  pub regs : X8664Regs

abbrev at : ℕ → Tracee → Tracee
at rip t = record { word = t.word; regs = record (t.regs) { rip = rip } }

-- The child runs to the trap when it is continued.
abbrev tracer : Tracer Tracee
tracer = record {
  peek_text = λ pid addr t. (some t.word, t);
  poke_text = λ pid addr word t. (true, record { word = word; regs = t.regs });
  get_regs = λ pid t. (some t.regs, t);
  set_regs = λ pid regs t. (true, record { word = t.word; regs = regs });
  single_step = λ pid t. (true, t);
  cont = λ pid t. (true, at 0x401001 t);
  waitpid = λ pid t. (some (stop_signal 5), t);
  fork = λ t. (some 7, t);
  trace_me = λ t. (true, t);
  execve = λ path argv t. t;
}

abbrev tracer_child : Child Tracee
tracer_child = record { text = λ pid addr t. t.word; regs = λ pid t. t.regs }

some_word : {a b : ℕ} → some a ≡ some b → b ≡ a
some_word h = cc

some_regs : {a b : X8664Regs} → some a ≡ some b → b ≡ a
some_regs h = cc

tracer-HasChild : HasChild tracer tracer_child
tracer-HasChild = record {
  peeked = λ pid addr word t h. some_word h;
  poked = λ pid addr word t h. refl;
  poke_keeps = λ pid addr word t. refl;
  set = λ pid regs t h. refl;
  got = λ pid regs t h. some_regs h;
  get_keeps = λ pid addr t. refl;
}

abbrev started : Tracee
started = record { word = 0x4889e5; regs = record sample_regs { rip = 0x400800 } }

abbrev point : Breakpoint
point = record { pid = 7; hook_addr = 0x401000; old_word = 0x4889e5 }

abbrev armed : Tracee
armed = record { word = place_int3_in_first_byte 0x4889e5; regs = started.regs }

abbrev reached : Tracee
reached = record { word = 0x4889e5; regs = sample_regs }

armed_returns : create_breakpoint tracer 7 0x401000 started ≡ returned point armed
unfolding create_breakpoint checked
armed_returns = refl

reached_returns : execute_up_to_breakpoint tracer point armed ≡ returned tt reached
unfolding execute_up_to_breakpoint checked exit_if disarm
reached_returns = refl

away_from_hook : started.regs.rip ≢ 0x401000
away_from_hook e = ground arith

execute_up_to_breakpoint-create_breakpoint_example :
    (tracer_child.text 7 0x401000 reached ≡ tracer_child.text 7 0x401000 started)
    × ((tracer_child.regs 7 reached).rip ≡ 0x401000)
execute_up_to_breakpoint-create_breakpoint_example =
    execute_up_to_breakpoint-create_breakpoint tracer tracer_child tracer-HasChild 7 0x401000 point
      started armed armed reached armed_returns reached_returns away_from_hook refl (ground arith)

stopped_returns : fork_child tracer [] [] started ≡ returned 7 started
unfolding fork_child parent_side stopped_only
stopped_returns = refl

abbrev at_armed_hook : Tracee
at_armed_hook = record { word = place_int3_in_first_byte 0x4889e5; regs = sample_regs }

past_returns : execute_up_to_breakpoint tracer point at_armed_hook ≡ returned tt reached
unfolding execute_up_to_breakpoint step_past checked exit_if disarm
past_returns = refl

fork_child-stopped_example :
    ((tracer.fork started).0 ≡ some 7)
    × (point.pid ≢ 0)
    × (signal : ℕ) × (tracer.waitpid 7 (tracer.fork started).1
        ≡ (some (stop_signal signal), started))
fork_child-stopped_example = fork_child-stopped tracer [] [] 7 started started stopped_returns

execute_up_to_breakpoint-unarmed_example :
    let seen = (tracer.get_regs 7 at_armed_hook).1 in
    (tracer_child.text 7 0x401000 seen ≡ place_int3_in_first_byte 0x4889e5)
    × (going : Tracee) × (step_past tracer point seen ≡ returned tt going)
    × (tracer_child.text 7 0x401000 going ≡ 0x4889e5)
    × ((tracer.cont 7 going).0 ≡ true)
execute_up_to_breakpoint-unarmed_example =
    execute_up_to_breakpoint-unarmed tracer tracer_child tracer-HasChild point at_armed_hook reached
      past_returns refl refl
