-- ===== src/Pipeline/Captured.antt =====
-- A captured i386 state in the loader: loader/src/i386/cpu_state_dump.c on what
-- snapshotter/src/linux/i386/snapshot.c gives.
use process_bridge.Base.{
  ℕ, List, ◌≡◌, ◌<◌, returned, length, IsDefined, Option, arith, subst, some, All, none, sym, ◌+◌,
}
use process_bridge.Common.UserDesc.{UserDesc}
use process_bridge.Common.I386State.{I386State}
use process_bridge.Loader.Host.{Host}
use process_bridge.Loader.X8664.{table_index}
use process_bridge.Loader.I386
use process_bridge.Loader.I386.Bounds.{dump_gdt-IsDefined, IsTls}
use process_bridge.Snapshotter.Capture.I386.{Tracer32, create_snapshot}
use process_bridge.Snapshotter.Capture.Areas.{HasAreas, create_snapshot-eq_returned, first_index}

first_index_small : (first : Option UserDesc) → first_index first < 13
first_index_small none = omega arith
first_index_small (some d) = omega arith

-- What the i386 snapshotter captures never makes the loader write a descriptor of thread-local
-- storage outside of its table, with a kernel whose requests only read and whose descriptors name
-- the index that was asked for: the loader's `dump_gdt` stays inside of the table if the stack
-- selector does.
pub dump_gdt-create_snapshot :
    {W : Type 0} (T : Tracer32 W) (area : ℕ → ℕ → W → UserDesc)
    → HasAreas T area
    → ((pid i : ℕ) (w : W) → (area pid i w).entry_number ≡ i)
    → (pid : ℕ) (uninitialised : List UserDesc) (s : I386State) (w w' : W)
    → length uninitialised ≡ 3
    → create_snapshot T pid uninitialised w ≡ returned s w'
    → table_index s.regs.xss < 512
    → (H : Host) (uc : ℕ) (v : H.World) → IsDefined (I386.dump_gdt H uc s v)
dump_gdt-create_snapshot T area areas numbered pid uninitialised s w w' size h stack H uc v =
    let m = first_index (T.get_thread_area pid 6 (T.get_regs pid w).1).0 in
    let small : m < 13 = first_index_small _ in
    let tls = create_snapshot-eq_returned T area areas pid uninitialised s w w' size h in
    let inside : (i : ℕ) → i < 512 → IsTls (area pid i w) =
      λ i lt. record { number_inside = omega (arith, numbered pid i w, lt) } in
    dump_gdt-IsDefined H uc s v (record {
      stack_inside = stack;
      tls_inside = subst (All IsTls) (sym tls) (
        inside m (omega (arith, small)),
        (inside (m + 1) (omega (arith, small)), (inside (m + 2) (omega (arith, small)), tt)),
      );
    })
