-- ===== src/Tests/Descriptors.antt =====
-- The descriptor tables and the exported functions at concrete states.
use process_bridge.Base.{◌≡◌, IsDefined, undefined, arith, ◌↔◌}
use process_bridge.Loader.I386
use process_bridge.Loader.Gdt.{gdt_entry_init, user_desc_to_real_desc}
use process_bridge.Loader.Gdt.Descriptors.{
  segment-gdt_entry_init, segment-user_desc_to_real_desc, flagged, requested,
}
use process_bridge.Loader.Gdt.Fields.{segment}
use process_bridge.Loader.I386.Bounds.{dump_gdt-IsDefined, dump_gdt-eq_undefined, IsOverrun}
use process_bridge.Tests.Machine.{machine_host}
use process_bridge.Common.I386State.{I386State}
use process_bridge.Tests.Samples.{
  sample_desc, machine_in, sample_desc-IsUserDesc, sample_i386_state, sample_i386_regs,
}

segment-gdt_entry_init_example :
    segment (gdt_entry_init 0xA0FB 0 0xfffff) ≡ flagged 0xA0FB 0 0xfffff
segment-gdt_entry_init_example = segment-gdt_entry_init 0xA0FB 0 0xfffff

segment-user_desc_to_real_desc_example :
    segment (user_desc_to_real_desc (sample_desc 12)) ≡ requested (sample_desc 12)
segment-user_desc_to_real_desc_example =
    segment-user_desc_to_real_desc (sample_desc 12) (sample_desc-IsUserDesc 12 (ground arith))

dump_gdt-IsDefined_example :
    IsDefined (I386.dump_gdt machine_host 1 sample_i386_state (machine_in 4))
dump_gdt-IsDefined_example =
    dump_gdt-IsDefined machine_host 1 sample_i386_state (machine_in 4) (record {
      stack_inside = ground arith;
      tls_inside = (
        record { number_inside = ground arith },
        (record { number_inside = ground arith }, (record { number_inside = ground arith }, tt)),
      );
    })

-- A state whose stack selector names the descriptor 512.
abbrev wild_state : I386State
wild_state = record sample_i386_state { regs = record sample_i386_regs { xss = 0x1003 } }

dump_gdt-eq_undefined_example :
    (I386.dump_gdt machine_host 1 wild_state (machine_in 4) ≡ undefined)
    ↔ IsOverrun machine_host 1 wild_state (machine_in 4)
dump_gdt-eq_undefined_example = dump_gdt-eq_undefined machine_host 1 wild_state (machine_in 4)
