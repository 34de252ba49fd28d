-- ===== src/Tests/Live.antt =====
-- A snapshot of one page, restored to the end.
use process_bridge.Loader.X8664
use process_bridge.Base.{
  [], length, ◌≢◌, ℕ, inl, arith, replicate, ap, ◌≡◌, length-replicate, refl, ◌%◌, ◌++◌, ◌∷◌,
  returned, inr,
}
use process_bridge.Tests.Machine.{machine_host, machine_view, machine_memory, machine_progress}
use process_bridge.Tests.Samples.{sample_regs, sample_regs-IsX8664Regs, machine_in}
use process_bridge.Tests.Layout.{sample_layout}
use process_bridge.Common.MapsEntry.{MapsEntry, IsMapsEntry}
use process_bridge.Common.Snapshot.{IsSection, Section, sections_bytes}
use process_bridge.Loader.X8664.Table.{IsUserSelectors}
use process_bridge.Loader.Engine.Progress.{IsPagedSection, AreTaken}
use process_bridge.Loader.Dump.{restore_from}
use process_bridge.Common.X8664.{x8664_regs_bytes}
use process_bridge.Loader.Engine.Live.{restore_from-returned}

abbrev page_entry : MapsEntry
page_entry = record {
  start = 0x401000;
  end = 0x402000;
  read = 1;
  write = 0;
  exec = 1;
  shared = 0;
  file_offset = 0x1000;
  path = replicate 4096 0;
}

page_entry-IsMapsEntry : IsMapsEntry page_entry
page_entry-IsMapsEntry = record {
  start_fits = omega arith;
  end_fits = omega arith;
  read_fits = omega arith;
  write_fits = omega arith;
  exec_fits = omega arith;
  shared_fits = omega arith;
  file_offset_fits = omega arith;
  path_size = length-replicate {A = ℕ} 4096 0;
}

abbrev page : Section
page = record { entry = page_entry; content = replicate {A = ℕ} 4096 0x90 }

page_size : length page.content ≡ 4096
page_size = length-replicate {A = ℕ} 4096 0x90

page-IsSection : IsSection page
page-IsSection = record {
  entry_fits = page_entry-IsMapsEntry;
  ordered = omega arith;
  content_size = page_size;
}

page-IsPagedSection : IsPagedSection page
page-IsPagedSection = record {
  some_page = omega (arith, page_size);
  start_aligned = refl;
  size_aligned = ap (λ n. n % 0x1000) page_size;
  range_fits = omega (arith, page_size);
}

pub sample_regs-IsUserSelectors : IsUserSelectors sample_regs
sample_regs-IsUserSelectors = record {
  global = refl;
  code_segment = refl;
  stack_segment = refl;
  data_segment = inl refl;
  extra_segment = inl refl;
}

pub codes_differ : machine_host.uc_mode_32 ≢ machine_host.uc_mode_64
codes_differ e = ground arith

pub sample_regs-AreTaken : AreTaken (X8664.reg_writes sample_regs)
sample_regs-AreTaken = omega arith

restore_from-returned_example :
    (entry : ℕ) × (w' : machine_host.World) × (restore_from machine_host sample_layout 1
        (x8664_regs_bytes sample_regs ++ sections_bytes (page ∷ []))
        (length (x8664_regs_bytes sample_regs ++ sections_bytes (page ∷ [])))
        (machine_in 8)
      ≡ returned entry w')
restore_from-returned_example =
    restore_from-returned machine_host machine_view machine_memory machine_progress 1 sample_layout
      sample_regs (page ∷ []) sample_regs-IsX8664Regs sample_regs-IsUserSelectors
      sample_regs-AreTaken (page-IsSection, tt) (page-IsPagedSection, tt) (tt, tt)
      (inr (omega arith), tt) codes_differ (machine_in 8) (machine_in 8) (machine_in 8) 4 refl refl
      ((λ x inner. refl), tt) (λ x inner. refl)
