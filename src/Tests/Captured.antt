-- ===== src/Tests/Captured.antt =====
-- A 32-bit child on a 64-bit kernel, and the layouts of its registers.
use process_bridge.Loader.I386
use process_bridge.Base.{
  arith, [], Bool, List, IsDefined, ltb, ◌≡◌, ℕ, ◌∷◌, returned, replicate, some, true, ◌+◌,
  if◌then◌else◌, refl, none, false,
}
use process_bridge.Snapshotter.Capture.I386.{
  Tracer32, create_snapshot, areas_from, thread_areas, tls_store,
}
use process_bridge.Snapshotter.Capture.Areas.{HasAreas, create_snapshot-areas}
use process_bridge.Snapshotter.Capture.Layout32
use process_bridge.Snapshotter.Capture.Layout64
use process_bridge.Tests.Samples.{sample_i386_regs, sample_desc, sample_i386_state, machine_in}
use process_bridge.Tests.Machine.{machine_host}
use process_bridge.Pipeline.Captured.{dump_gdt-create_snapshot}
use process_bridge.Common.X8664.{x8664_regs_of}
use process_bridge.Common.UserDesc.{UserDesc}
use process_bridge.Base.Bytes.{word_at}

-- The world is what the child has answered so far, as a number.
abbrev tracer32 : Tracer32 ℕ
tracer32 = record {
  get_regs = λ pid w. (some sample_i386_regs, w + 1);
  get_thread_area = λ pid i w. (if ltb i 12 then none else some (sample_desc i), w + 1);
}

abbrev thread_area : ℕ → ℕ → ℕ → UserDesc
thread_area pid i w = sample_desc i

answer :
    (b : Bool) (i : ℕ) (d : UserDesc)
    → (if b then none else some (sample_desc i)) ≡ some d
    → d ≡ sample_desc i
answer true i d h = cc
answer false i d h = cc

tracer32-HasAreas : HasAreas tracer32 thread_area
tracer32-HasAreas = record {
  answered = λ pid i d w h. answer (ltb i 12) i d h;
  kept = λ pid i j w. refl;
  regs_keep = λ pid i w. refl;
}

abbrev unset : List UserDesc
unset = sample_desc 0 ∷ sample_desc 0 ∷ sample_desc 0 ∷ []

captured : create_snapshot tracer32 7 unset 0 ≡ returned sample_i386_state 5
unfolding create_snapshot areas_from thread_areas tls_store
captured = refl

-- A 32-bit kernel answers for the index 6 too.
abbrev native_tracer : Tracer32 ℕ
native_tracer = record {
  get_regs = λ pid w. (some sample_i386_regs, w + 1);
  get_thread_area = λ pid i w. (some (sample_desc i), w + 1);
}

native_tracer-HasAreas : HasAreas native_tracer thread_area
native_tracer-HasAreas = record {
  answered = λ pid i d w h. answer false i d h;
  kept = λ pid i j w. refl;
  regs_keep = λ pid i w. refl;
}

create_snapshot-areas_example :
    (w' : ℕ) × (create_snapshot native_tracer 7 unset 0
      ≡ returned
          (record {
            regs = sample_i386_regs;
            tls = thread_area 7 6 0 ∷ thread_area 7 7 0 ∷ thread_area 7 8 0 ∷ [];
          })
          w')
create_snapshot-areas_example =
    create_snapshot-areas native_tracer thread_area native_tracer-HasAreas 7 unset sample_i386_regs
      0 refl refl (λ i v low high. (sample_desc i, refl))

dump_gdt-create_snapshot_example :
    IsDefined (I386.dump_gdt machine_host 1 sample_i386_state (machine_in 4))
dump_gdt-create_snapshot_example =
    dump_gdt-create_snapshot tracer32 thread_area tracer32-HasAreas (λ pid i w. refl) 7 unset
      sample_i386_state 0 5 refl captured (omega arith) machine_host 1 (machine_in 4)

-- The layouts of <sys/user.h>.
abbrev user_regs64 : Layout64.UserRegs
user_regs64 = record { size = 216; offset = Layout64.pb_offset; field_size = λ f. 8 }

abbrev user_regs32 : Layout32.UserRegs
user_regs32 = record { size = 68; offset = Layout32.pb_offset; field_size = λ f. 4 }

asserted64 : Layout64.static_assertions user_regs64 ≡ true
unfolding Layout64.static_assertions Layout64.same_fields Layout64.same_field Layout64.pb_offset
asserted64 = refl

asserted32 : Layout32.static_assertions user_regs32 ≡ true
unfolding Layout32.static_assertions Layout32.same_fields Layout32.same_field Layout32.pb_offset
asserted32 = refl

abbrev some_bytes : List ℕ
some_bytes = replicate 216 17

x8664_regs_of-static_assertions_example :
    Layout64.field_of Layout64.rip (x8664_regs_of some_bytes)
    ≡ word_at (user_regs64.field_size Layout64.rip) (user_regs64.offset Layout64.rip) some_bytes
x8664_regs_of-static_assertions_example =
    Layout64.x8664_regs_of-static_assertions user_regs64 Layout64.rip some_bytes asserted64
