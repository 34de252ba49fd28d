-- ===== src/Snapshotter/Breakpoint/Past.antt =====
-- A child that stands at the breakpoint when it is run.
use process_bridge.Base.{
  ◌≡◌, returned, true, ◌∙◌, or_fatal-eq_returned, ◌==◌, ==_iff, ap, refl, if◌then◌else◌,
  >>-eq_returned,
}
use process_bridge.Snapshotter.Breakpoint.{
  Tracer, Breakpoint, execute_up_to_breakpoint, step_past, place_int3_in_first_byte, exit_if,
  has_ended, checked,
}
use process_bridge.Snapshotter.Breakpoint.Hit.{
  Child, HasChild, checked-eq_returned, alive, checked_last, checked_world,
}

module _ {W : Type 0} (T : Tracer W) (C : Child W) (child : HasChild T C) where
  -- What `step_past` leaves: the old word at the hook.
  step_past_lem :
      (b : Breakpoint) (w w' : W)
      → step_past T b w ≡ returned tt w'
      → C.text b.pid b.hook_addr w' ≡ b.old_word
  unfolding step_past exit_if
  step_past_lem b w w' h =
      let (_, h1) = checked-eq_returned T (T.single_step b.pid) w _ h in
      let u = (T.single_step b.pid w).1 in
      let (status, _, h2) = or_fatal-eq_returned (T.waitpid b.pid) u _ h1 in
      let v = (T.waitpid b.pid u).1 in
      let h3 =
        alive T (has_ended status) v (λ _. checked T (T.poke_text b.pid b.hook_addr b.old_word))
          h2 in
      let poked = checked_last T _ v h3 in
      ap (C.text b.pid b.hook_addr) (checked_world T _ v h3)
      ∙ child.poked b.pid b.hook_addr b.old_word v poked

  -- Where a child that stands at an armed hook is run and the run returns, with a tracer that reads
  -- and writes the child, the single step was asked for with the trap still at the hook, and the
  -- child was continued from a world in which the hook has its old word: the breakpoint is no
  -- longer armed.
  pub execute_up_to_breakpoint-unarmed :
      (b : Breakpoint) (v w' : W)
      → execute_up_to_breakpoint T b v ≡ returned tt w'
      → (C.regs b.pid v).rip ≡ b.hook_addr
      → C.text b.pid b.hook_addr v ≡ place_int3_in_first_byte b.old_word
      → let seen = (T.get_regs b.pid v).1 in
        (C.text b.pid b.hook_addr seen ≡ place_int3_in_first_byte b.old_word)
        × (going : W) × (step_past T b seen ≡ returned tt going)
        × (C.text b.pid b.hook_addr going ≡ b.old_word)
        × ((T.cont b.pid going).0 ≡ true)
  unfolding execute_up_to_breakpoint
  execute_up_to_breakpoint-unarmed b v w' h at_hook armed =
      let (regs, found, h1) = or_fatal-eq_returned (T.get_regs b.pid) v _ h in
      let seen = (T.get_regs b.pid v).1 in
      let here : regs ≡ C.regs b.pid v = child.got b.pid regs v found in
      let there : (regs.rip == b.hook_addr) ≡ true =
        rw (here, at_hook) ((==_iff b.hook_addr b.hook_addr).1 refl) in
      let h2 = rw (if◌then◌else◌, there) at h1 in
      let (_, going, stepped, h3) = >>-eq_returned (step_past T b seen) _ h2 in
      let (continued, _) = checked-eq_returned T (T.cont b.pid) going _ h3 in
      (
        child.get_keeps b.pid b.hook_addr v ∙ armed,
        going,
        stepped,
        step_past_lem b seen going stepped,
        continued,
      )
