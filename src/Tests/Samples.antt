-- ===== src/Tests/Samples.antt =====
-- Small snapshots, and the machine that they are restored to.
use process_bridge.Base.{
  refl, ℕ, List, [], ◌∷◌, replicate, none, All, arith, ◌<◌, ◌^◌, length-replicate,
}
use process_bridge.Common.MapsEntry.{MapsEntry, IsMapsEntry}
use process_bridge.Common.X8664.{X8664Regs, IsX8664Regs}
use process_bridge.Common.I386.{I386Regs}
use process_bridge.Common.I386State.{I386State, IsI386State}
use process_bridge.Common.UserDesc.{UserDesc, IsUserDesc}
use process_bridge.Common.Snapshot.{Section, IsSection}
use process_bridge.Tests.Machine.{Machine}

abbrev pub sample_regs : X8664Regs
sample_regs = record {
  r15 = 15;
  r14 = 14;
  r13 = 13;
  r12 = 12;
  rbp = 0x7000;
  rbx = 1;
  r11 = 11;
  r10 = 10;
  r9 = 9;
  r8 = 8;
  rax = 60;
  rcx = 2;
  rdx = 3;
  rsi = 4;
  rdi = 5;
  orig_rax = 60;
  rip = 0x401000;
  cs = 0x33;
  eflags = 0x246;
  rsp = 0x7ff0;
  ss = 0x2b;
  fs_base = 0x9000;
  gs_base = 0;
  ds = 0;
  es = 0;
  fs = 0;
  gs = 0;
}

abbrev pub sample_entry : MapsEntry
sample_entry = record {
  start = 0x401000;
  end = 0x401004;
  read = 1;
  write = 0;
  exec = 1;
  shared = 0;
  file_offset = 0x1000;
  path = replicate 4096 0;
}

abbrev pub sample_section : Section
sample_section = record { entry = sample_entry; content = 0x90 ∷ 0xCC ∷ 0x90 ∷ 0xC3 ∷ [] }

abbrev pub sample_sections : List Section
sample_sections = sample_section ∷ []

abbrev pub sample_i386_regs : I386Regs
sample_i386_regs = record {
  ebx = 1;
  ecx = 2;
  edx = 3;
  esi = 4;
  edi = 5;
  ebp = 0x7000;
  eax = 1;
  xds = 0x2b;
  xes = 0x2b;
  xfs = 0;
  xgs = 0x63;
  orig_eax = 1;
  eip = 0x8049000;
  xcs = 0x23;
  eflags = 0x246;
  esp = 0x7ff0;
  xss = 0x2b;
}

abbrev pub sample_desc : ℕ → UserDesc
sample_desc number = record {
  entry_number = number;
  base_addr = 0xf7fc1500;
  limit = 0xfffff;
  seg_32bit = 1;
  contents = 0;
  read_exec_only = 0;
  limit_in_pages = 1;
  seg_not_present = 0;
  useable = 1;
}

abbrev pub sample_i386_state : I386State
sample_i386_state = record {
  regs = sample_i386_regs;
  tls = sample_desc 12 ∷ sample_desc 13 ∷ sample_desc 14 ∷ [];
}

abbrev pub machine_in : ℕ → Machine
machine_in mode = record { mode = mode; areas = []; stores = []; regs = []; file = none }

pub sample_regs-IsX8664Regs : IsX8664Regs sample_regs
sample_regs-IsX8664Regs = omega arith

pub sample_desc-IsUserDesc : (number : ℕ) → number < 2 ^ 32 → IsUserDesc (sample_desc number)
sample_desc-IsUserDesc number h = record {
  entry_number_fits = h;
  base_addr_fits = omega arith;
  limit_fits = omega arith;
  seg_32bit_fits = omega arith;
  contents_fits = omega arith;
  read_exec_only_fits = omega arith;
  limit_in_pages_fits = omega arith;
  seg_not_present_fits = omega arith;
  useable_fits = omega arith;
}

pub sample_entry-IsMapsEntry : IsMapsEntry sample_entry
sample_entry-IsMapsEntry = record {
  start_fits = omega arith;
  end_fits = omega arith;
  read_fits = omega arith;
  write_fits = omega arith;
  exec_fits = omega arith;
  shared_fits = omega arith;
  file_offset_fits = omega arith;
  path_size = length-replicate {A = ℕ} 4096 0;
}

pub sample_sections-IsSection : All IsSection sample_sections
sample_sections-IsSection = (
  record { entry_fits = sample_entry-IsMapsEntry; ordered = omega arith; content_size = refl },
  tt,
)

pub sample_i386_state-IsI386State : IsI386State sample_i386_state
sample_i386_state-IsI386State = record {
  regs_fit = omega arith;
  tls_size = refl;
  tls_fit = (
    sample_desc-IsUserDesc 12 (ground arith),
    (sample_desc-IsUserDesc 13 (ground arith), (sample_desc-IsUserDesc 14 (ground arith), tt)),
  );
}
