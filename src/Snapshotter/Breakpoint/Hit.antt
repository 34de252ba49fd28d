-- ===== src/Snapshotter/Breakpoint/Hit.antt =====
-- The child when it has reached the breakpoint.
use process_bridge.Base.{
  ◌≡◌, ℕ, returned, some, true, Bool, Run, and_then, not, arith, fatal_if-eq_returned, ◌≢◌,
  or_fatal-eq_returned, false, ap, >>-eq_returned, ◌+◌, ◌==◌, ◌<◌, sym, ◌∙◌, ◌^◌, if◌then◌else◌,
  ◌-◌, ◌%◌,
}
use process_bridge.Snapshotter.Breakpoint.{
  Tracer, Breakpoint, create_breakpoint, execute_up_to_breakpoint, disarm, rewound, checked,
  exit_if, has_ended,
}
use process_bridge.Common.X8664.{X8664Regs}

-- What stands in the child: the word at an address, and the registers.
pub record Child (W : Type 0) : Type 0 where
  pub text : ℕ → ℕ → W → ℕ
  pub regs : ℕ → W → X8664Regs

module _ {W : Type 0} (T : Tracer W) (C : Child W) where
  -- `PTRACE_PEEKTEXT` and `PTRACE_GETREGS` read, `PTRACE_POKETEXT` and `PTRACE_SETREGS` write.
  pub record HasChild : Type 0 where
    pub peeked :
        (pid addr word : ℕ) (w : W)
        → (T.peek_text pid addr w).0 ≡ some word
        → word ≡ C.text pid addr w
    pub poked :
        (pid addr word : ℕ) (w : W)
        → (T.poke_text pid addr word w).0 ≡ true
        → C.text pid addr (T.poke_text pid addr word w).1 ≡ word
    pub poke_keeps :
        (pid addr word : ℕ) (w : W) → C.regs pid (T.poke_text pid addr word w).1 ≡ C.regs pid w
    pub set :
        (pid : ℕ) (regs : X8664Regs) (w : W)
        → (T.set_regs pid regs w).0 ≡ true
        → C.regs pid (T.set_regs pid regs w).1 ≡ regs
    pub got :
        (pid : ℕ) (regs : X8664Regs) (w : W)
        → (T.get_regs pid w).0 ≡ some regs
        → regs ≡ C.regs pid w
    pub get_keeps :
        (pid addr : ℕ) (w : W) → C.text pid addr (T.get_regs pid w).1 ≡ C.text pid addr w

pub checked-eq_returned :
    {W : Type 0} (T : Tracer W) (f : W → Bool × W) (w : W)
    → (k : Unit {0} → Run W (Unit {0})) {w' : W} → and_then (checked T f w) k ≡ returned tt w'
    → ((f w).0 ≡ true) × (k tt (f w).1 ≡ returned tt w')
unfolding checked
checked-eq_returned T f w k h =
    let (ok, rest) = fatal_if-eq_returned (not (f w).0) (f w).1 k h in (ground arith, rest)

pub checked_last :
    {W : Type 0} (T : Tracer W) (f : W → Bool × W) (w : W) {w' : W}
    → checked T f w ≡ returned tt w'
    → (f w).0 ≡ true
unfolding checked
checked_last T f w h = ground arith

pub checked_world :
    {W : Type 0} (T : Tracer W) (f : W → Bool × W) (w : W) {w' : W}
    → checked T f w ≡ returned tt w'
    → w' ≡ (f w).1
unfolding checked
checked_world T f w h = ground arith

away_test : (a b : ℕ) → a ≢ b → (a == b) ≡ false
away_test a b h = ground arith

-- What follows a wait is reached by a child that has not ended.
pub alive :
    {W : Type 0} (T : Tracer W) (ended : Bool) (w : W) (k : Unit {0} → Run W (Unit {0})) {w' : W}
    → and_then (exit_if T ended w) k ≡ returned tt w'
    → k tt w ≡ returned tt w'
unfolding exit_if
alive T true w k h = cc
alive T false w k h = h

module _ {W : Type 0} (T : Tracer W) (C : Child W) (child : HasChild T C) where
  -- Where the child is disarmed, the hook has its word back and the child stands one byte before
  -- the address that it stopped at, its other registers as they were.
  disarm_lem :
      (b : Breakpoint) (w w' : W)
      → disarm T b w ≡ returned tt w'
      → (C.text b.pid b.hook_addr w' ≡ b.old_word) × (C.regs b.pid w' ≡ rewound T (C.regs b.pid w))
  unfolding disarm
  disarm_lem b w w' h =
      let (regs, found, h1) = or_fatal-eq_returned (T.get_regs b.pid) w _ h in
      let u = (T.get_regs b.pid w).1 in
      let (set_ok, h2) = checked-eq_returned T (T.set_regs b.pid (rewound T regs)) u _ h1 in
      let v = (T.set_regs b.pid (rewound T regs) u).1 in
      let poke_ok : (T.poke_text b.pid b.hook_addr b.old_word v).0 ≡ true = checked_last T _ v h2 in
      let same : w' ≡ (T.poke_text b.pid b.hook_addr b.old_word v).1 = checked_world T _ v h2 in
      (
        ap (C.text b.pid b.hook_addr) same ∙ child.poked b.pid b.hook_addr b.old_word v poke_ok,
        ap (C.regs b.pid) same
            ∙ child.poke_keeps b.pid b.hook_addr b.old_word v
            ∙ child.set b.pid (rewound T regs) u set_ok
            ∙ ap (rewound T) (child.got b.pid regs w found),
      )

  create_breakpoint_lem :
      (pid hook_addr : ℕ) (b : Breakpoint) (w u : W)
      → create_breakpoint T pid hook_addr w ≡ returned b u
      → (b.pid ≡ pid) × (b.hook_addr ≡ hook_addr) × (b.old_word ≡ C.text pid hook_addr w)
  unfolding create_breakpoint
  create_breakpoint_lem pid hook_addr b w u h =
      let (word, peeked, h1) = or_fatal-eq_returned (T.peek_text pid hook_addr) w _ h in
      let (_, v, poked, h2) = >>-eq_returned (checked T _ (T.peek_text pid hook_addr w).1) _ h1 in
      let made : record { pid = pid; hook_addr = hook_addr; old_word = word } ≡ b = cc in
      (
        ap (λ (c : Breakpoint). c.pid) (sym made),
        ap (λ (c : Breakpoint). c.hook_addr) (sym made),
        ap (λ (c : Breakpoint). c.old_word) (sym made) ∙ child.peeked pid hook_addr word w peeked,
      )

  -- Where a breakpoint was made and the child then run to it, from another address, and it
  -- stopped behind the trap, with a tracer that reads and writes the child, the child stands at
  -- the hook, with the word there that it had before.
  pub execute_up_to_breakpoint-create_breakpoint :
      (pid hook_addr : ℕ) (b : Breakpoint) (w u v w' : W)
      → create_breakpoint T pid hook_addr w ≡ returned b u
      → execute_up_to_breakpoint T b v ≡ returned tt w'
      → (C.regs pid v).rip ≢ hook_addr
      → let going = (T.cont pid (T.get_regs pid v).1).1 in
        (C.regs pid (T.waitpid pid going).1).rip ≡ hook_addr + 1
        → hook_addr + 1 < 2 ^ 64
        → (C.text pid hook_addr w' ≡ C.text pid hook_addr w) × ((C.regs pid w').rip ≡ hook_addr)
  unfolding execute_up_to_breakpoint exit_if
  execute_up_to_breakpoint-create_breakpoint pid hook_addr b w u v w' made h away landed small =
      let (is_pid, is_hook, is_word) = create_breakpoint_lem pid hook_addr b w u made in
      let (regs, found, h1) = or_fatal-eq_returned (T.get_regs b.pid) v _ h in
      let here : regs ≡ C.regs b.pid v = child.got b.pid regs v found in
      let not_there : (regs.rip == b.hook_addr) ≡ false =
        rw (here, is_pid, is_hook) (away_test (C.regs pid v).rip hook_addr away) in
      let h2 = rw (if◌then◌else◌, not_there) at h1 in
      let (_, h3) = checked-eq_returned T (T.cont b.pid) (T.get_regs b.pid v).1 _ h2 in
      let going = (T.cont b.pid (T.get_regs b.pid v).1).1 in
      let (status, waited, h4) = or_fatal-eq_returned (T.waitpid b.pid) going _ h3 in
      let stopped = (T.waitpid b.pid going).1 in
      let h5 : disarm T b stopped ≡ returned tt w' = alive T (has_ended status) stopped _ h4 in
      let (text, back) = disarm_lem b stopped w' h5 in
      let text' : C.text pid hook_addr w' ≡ C.text pid hook_addr w =
        rw (is_pid, is_hook) at text ∙ is_word in
      let landing : (C.regs pid w').rip ≡ (hook_addr + 1 + (2 ^ 64 - 1)) % 2 ^ 64 =
        ap (λ (r : X8664Regs). r.rip) (rw is_pid at back)
        ∙ ap (λ (a : ℕ). (a + (2 ^ 64 - 1)) % 2 ^ 64) landed in
      (text', landing ∙ omega (arith, small))
