-- ===== src/Snapshotter/Main/Written.antt =====
-- What a run of snapshotter/src/main.c leaves.
use process_bridge.Snapshotter.Main.{Shell, main, snapshot_child, snapshot_name, run_to_snapshot}
use process_bridge.Snapshotter.Kernel.{Kernel, Streams, HasStreams, HasMaps}
use process_bridge.Snapshotter.Breakpoint.{
  Tracer, Breakpoint, create_breakpoint, execute_up_to_breakpoint, fork_child,
}
use process_bridge.Snapshotter.Elf.{Elf}
use process_bridge.Base.{
  ℕ, ◌≡◌, List, returned, or_fatal-eq_returned, ◌+◌, >>-eq_returned, ◌%◌, arith, ◌^◌, some, All,
  ◌++◌, get_or, ◌∙◌, [], length, ◌-◌, ◌*◌, fatal_if-eq_returned, not, ◌<◌, ◌⊎◌, ap, ◌≤◌, true,
  Bool-cases, ltb, inr, if◌then◌else◌, inl, ◌||◌, drop,
}
use process_bridge.Common.X8664.{X8664Regs, x8664_regs_bytes}
use process_bridge.Common.Snapshot.{Section, IsSection, sections_bytes}
use process_bridge.Snapshotter.ProcessInfo.{get_image_base}
use process_bridge.Snapshotter.Mappings.{dump_snapshot}
use process_bridge.Snapshotter.Mappings.File.{dump_snapshot-sections}
use process_bridge.Snapshotter.Capture.{create_snapshot}
use process_bridge.Snapshotter.Main.Argv.{child_args-drop, until_null-map}

-- The run up to the breakpoint, the registers of the child there, and the snapshot of them in the
-- file.
pub record IsDumped (K : Kernel) (S : Streams K) (T : Tracer K.World) (fuel pid : ℕ)
    (b : Breakpoint) (w w' : K.World) : Type 0 where
  pub stop : K.World
  pub regs : X8664Regs
  pub file : ℕ
  pub sections : List Section
  pub ran : execute_up_to_breakpoint T b w ≡ returned tt stop
  pub got : (T.get_regs b.pid stop).0 ≡ some regs
  pub opened : (K.fopen_wb snapshot_name (T.get_regs b.pid stop).1).0 ≡ some file
  pub all_sections : All IsSection sections
  pub written : S.contents file w' ≡ x8664_regs_bytes regs ++ sections_bytes sections
  pub closed : K.World
  pub dumping :
      dump_snapshot K fuel regs pid snapshot_name (T.get_regs b.pid stop).1 ≡ returned tt closed
  pub kept : S.contents file w' ≡ S.contents file closed

-- The child that was started with its arguments, the base of its image, and the breakpoint at the
-- offset from there, to which it ran and was dumped.
pub record IsWritten (K : Kernel) (S : Streams K) (T : Tracer K.World) (E : Elf K.World) (fuel : ℕ)
    (argv : List (List ℕ)) (addr : ℕ) (w w' : K.World) : Type 0 where
  pub pid : ℕ
  pub image_base : ℕ
  pub breakpoint : Breakpoint
  pub forking : K.World
  pub forked : K.World
  pub based : K.World
  pub armed : K.World
  pub allocated : K.malloc ((length argv - 3 + 2) * 8) w ≡ (true, forking)
  pub started : fork_child T (get_or argv 2 []) (drop 2 argv) forking ≡ returned pid forked
  pub found : get_image_base K E fuel (get_or argv 2 []) pid forked ≡ returned image_base based
  pub made :
      create_breakpoint T pid ((image_base + addr) % 2 ^ 64) based ≡ returned breakpoint armed
  pub dumped : IsDumped K S T fuel pid breakpoint armed w'

module _ (K : Kernel) (S : Streams K) (T : Tracer K.World) (E : Elf K.World)
    (P : Shell K.World) where
  -- Neither the signal to the child nor the wait for it writes to a stream.
  pub record HasShell : Type 0 where
    pub kill_keeps :
        (file pid : ℕ) (w : K.World) → S.contents file (P.kill pid w) ≡ S.contents file w
    pub waitpid_keeps :
        (file pid : ℕ) (w : K.World) → S.contents file (T.waitpid pid w).1 ≡ S.contents file w

  module _ (streams : HasStreams K S) (maps : HasMaps K) (shell : HasShell) where
    ended_keeps :
        (file pid : ℕ) (u : K.World)
        → S.contents file (T.waitpid pid (P.kill pid u)).1 ≡ S.contents file u
    ended_keeps file pid u =
        shell.waitpid_keeps file pid (P.kill pid u) ∙ shell.kill_keeps file pid u

    run_to_snapshot-IsDumped :
        (fuel pid : ℕ) (b : Breakpoint) (w w' : K.World) (code : ℕ)
        → run_to_snapshot K T E P fuel pid b w ≡ returned code w'
        → (code ≡ 0) × IsDumped K S T fuel pid b w w'
    unfolding run_to_snapshot create_snapshot
    run_to_snapshot-IsDumped fuel pid b w w' code h =
        let (_, v, ran, h1) = >>-eq_returned (execute_up_to_breakpoint T b w) _ h in
        let (regs, got, h2) = or_fatal-eq_returned (T.get_regs b.pid) v _ h1 in
        let v' = (T.get_regs b.pid v).1 in
        let dumped = dump_snapshot K fuel regs pid snapshot_name v' in
        let (_, u, wrote, ended) = >>-eq_returned dumped _ h2 in
        let (file, ss, opened, all, contents) =
          dump_snapshot-sections K S streams maps fuel regs pid snapshot_name v' u wrote in
        let last : w' ≡ (T.waitpid pid (P.kill pid u)).1 = cc in
        let none_added = ap (S.contents file) last ∙ ended_keeps file pid u in
        (
          cc,
          record {
            stop = v;
            regs = regs;
            file = file;
            sections = ss;
            ran = ran;
            got = got;
            opened = opened;
            all_sections = all;
            written = none_added ∙ contents;
            closed = u;
            dumping = wrote;
            kept = none_added;
          },
        )

    snapshot_child-IsWritten :
        (fuel addr : ℕ) (argv : List (List ℕ)) (w w' : K.World) (code : ℕ)
        → 3 ≤ length argv
        → snapshot_child K T E P fuel addr argv w ≡ returned code w'
        → (code ≡ 0) × IsWritten K S T E fuel argv addr w w'
    unfolding snapshot_child
    snapshot_child-IsWritten fuel addr argv w w' code enough h =
        let child = get_or argv 2 [] in
        let (ok, forking) = K.malloc ((length argv - 3 + 2) * 8) w in
        let (has_memory, h2) = fatal_if-eq_returned (not ok) forking _ h in
        let filled = child_args-drop P.held argv forking enough in
        let read = until_null-map (drop 2 argv) forking in
        let h3 = rw (read) at (rw (filled) at h2) in
        let start = fork_child T child (drop 2 argv) forking in
        let (pid, forked, started, h4) = >>-eq_returned start _ h3 in
        let (base, based, found, h5) =
          >>-eq_returned (get_image_base K E fuel child pid forked) _ h4 in
        let make = create_breakpoint T pid ((base + addr) % 2 ^ 64) based in
        let (b, armed, made, h6) = >>-eq_returned make _ h5 in
        let (zero, dumped) = run_to_snapshot-IsDumped fuel pid b armed w' code h6 in
        let has : ok ≡ true = ground arith in
        (
          zero,
          record {
            pid = pid;
            image_base = base;
            breakpoint = b;
            forking = forking;
            forked = forked;
            based = based;
            armed = armed;
            allocated = λ i. (has i, forking);
            started = started;
            found = found;
            made = made;
            dumped = dumped;
          },
        )

    -- A run of `main` that comes to its end without an exit in between was either given fewer than
    -- two arguments, and then it gives 1 and has changed nothing, or it gives 0, the text of the
    -- offset was read whole, as a number in range, and the file that was opened under the name of
    -- the snapshot holds one snapshot, with all its sections whole: that of the registers that
    -- were read after the child, started with its arguments, had run up to the breakpoint that was
    -- made at this offset from the base that was found of its image. It is supposed that a stream
    -- holds what is written to it, that the kernel gives maps in its documented form, and that a
    -- signal to a process and the wait for it write to no stream.
    pub main-IsWritten :
        (fuel : ℕ) (argv : List (List ℕ)) (w w' : K.World) (code : ℕ)
        → main K T E P fuel argv w ≡ returned code w'
        → ((length argv < 3) × (code ≡ 1) × (w' ≡ w))
          ⊎ ((3 ≤ length argv)
              × (code ≡ 0)
              × (not (P.strtoull (get_or argv 1 [])).out_of_range ≡ true)
              × ((P.strtoull (get_or argv 1 [])).whole ≡ true)
              × ((P.strtoull (get_or argv 1 [])).any_digit ≡ true)
              × IsWritten K S T E fuel argv (P.strtoull (get_or argv 1 [])).value w w')
    unfolding main
    main-IsWritten fuel argv w w' code h = elim (Bool-cases (ltb (length argv) 3)) [
      | inl few ↦ let h1 = rw (if◌then◌else◌, few) at h in inl (ground arith, cc, cc)
      | inr enough ↦
          let h1 = rw (if◌then◌else◌, enough) at h in
          let number = P.strtoull (get_or argv 1 []) in
          let bad = number.out_of_range || not number.whole || not number.any_digit in
          let (good, h2) = fatal_if-eq_returned bad w _ h1 in
          let (zero, result) =
            snapshot_child-IsWritten fuel number.value argv w w' code (ground arith) h2 in
          inr (ground arith, zero, ground arith, ground arith, ground arith, result)
    ]
