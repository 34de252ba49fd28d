-- ===== src/Snapshotter/Breakpoint/Start.antt =====
-- The start of the child.
use process_bridge.Base.{
  ◌≡◌, ◌≢◌, ℕ, List, returned, some, >>-eq_returned, or_fatal-eq_returned, ◌==◌, Bool-cases, false,
  arith, inl, if◌then◌else◌, inr, ◌∙◌, ap, subst, refl,
}
use process_bridge.Snapshotter.Breakpoint.{
  Tracer, Status, stop_signal, exit_status, term_signal, other_status, fork_child, child_side,
  parent_side, stopped_only, checked,
}

apart : (a b : ℕ) → (a == b) ≡ false → a ≢ b
apart a b h e = ground arith

module _ {W : Type 0} (T : Tracer W) where
  -- The child's side never returns.
  child_side-ne_returned :
      (path : List ℕ) (argv : List (List ℕ)) (pid : ℕ) (w w' : W)
      → child_side T path argv w ≢ returned pid w'
  unfolding child_side
  child_side-ne_returned path argv pid w w' h =
      let (_, u, _, rest) = >>-eq_returned (checked T T.trace_me w) _ h in cc

  stopped_only_lem :
      (status : Status) (w w' : W)
      → stopped_only T status w ≡ returned tt w'
      → (signal : ℕ) × (status ≡ stop_signal signal) × (w' ≡ w)
  unfolding stopped_only
  stopped_only_lem (exit_status code) w w' h = cc
  stopped_only_lem (term_signal signal) w w' h = cc
  stopped_only_lem (stop_signal signal) w w' h = (signal, refl, cc)
  stopped_only_lem (other_status status) w w' h = cc

  -- Where `fork_child` returns, it does so in the parent, with the process that `fork` made, after
  -- that process was seen to stop; a child that has exited or was killed, a wait that tells anything
  -- else, and the child's own side all end in an exit.
  pub fork_child-stopped :
      (path : List ℕ) (argv : List (List ℕ)) (pid : ℕ) (w w' : W)
      → fork_child T path argv w ≡ returned pid w'
      → ((T.fork w).0 ≡ some pid)
        × (pid ≢ 0)
        × (signal : ℕ) × (T.waitpid pid (T.fork w).1 ≡ (some (stop_signal signal), w'))
  unfolding fork_child parent_side
  fork_child-stopped path argv pid w w' h =
      let (forked, made, h1) = or_fatal-eq_returned T.fork w _ h in
      let u = (T.fork w).1 in
      elim (Bool-cases (forked == 0)) [
        | inl child ↦
            let h2 = rw (if◌then◌else◌, child) at h1 in
            absurd (child_side-ne_returned path argv pid u w' h2)
        | inr parent ↦
            let h2 = rw (if◌then◌else◌, parent) at h1 in
            let (status, waited, h3) = or_fatal-eq_returned (T.waitpid forked) u _ h2 in
            let (_, v, only, h4) =
              >>-eq_returned (stopped_only T status (T.waitpid forked u).1) _ h3 in
            let (signal, is_stop, kept) = stopped_only_lem status _ v only in
            let same : forked ≡ pid = cc in
            let world : (T.waitpid forked u).1 ≡ w' = cc in
            let first : (T.waitpid forked u).0 ≡ some (stop_signal signal) =
              waited ∙ ap some is_stop in
            (
              made ∙ ap some same,
              rw same at (apart forked 0 parent),
              signal,
              subst (λ (p : ℕ). T.waitpid p u ≡ (some (stop_signal signal), w')) same
                  (λ i. (first i, world i)),
            )
      ]
