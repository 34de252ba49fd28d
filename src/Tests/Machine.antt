-- ===== src/Tests/Machine.antt =====
-- A concrete engine and file system with which the loader can be run.
use process_bridge.Base.{
  refl, List, ◌∷◌, [], Option, some, none, ℕ, Bool, true, false, ltb, ◌≡◌, arith, if◌then◌else◌,
  length, ◌+◌, Bool-cases, inl, ◌&&◌, get_or, ◌||◌, ◌-◌, ap, inr, sym, ◌∙◌, ◌<◌, ◌≤◌, ◌==◌,
}
use process_bridge.Loader.Host.{Host, Reg, esp, eip, cs, eflags, ss}
use process_bridge.Loader.Engine.{View, inside, HasMemory}
use process_bridge.Loader.Registers.{reg_eq_refl, touches-reg_eq, HasRegisters, reg_eq}
use process_bridge.Loader.Engine.Progress.{HasProgress}
use process_bridge.Base.Bytes.{le_value}

pub record Area : Type 0 where
  pub start : ℕ
  pub size : ℕ
  pub prot : ℕ

-- One engine: its areas and writes, the latest first, and one file.
pub record Machine : Type 0 where
  pub mode : ℕ
  pub areas : List Area
  pub stores : List (ℕ × List ℕ)
  pub regs : List (Reg × ℕ)
  pub file : Option (List ℕ)

abbrev option_map : {A B : Type 0} → (A → B) → Option A → Option B
option_map f none = none
option_map f (some a) = some (f a)

abbrev pub perms_in : List Area → ℕ → Option ℕ
perms_in [] x = none
perms_in (a ∷ areas) x = if inside a.start a.size x then some a.prot else perms_in areas x

abbrev pub byte_in : List (ℕ × List ℕ) → ℕ → ℕ
byte_in [] x = 0
byte_in ((start, bytes) ∷ stores) x =
    if inside start (length bytes) x then get_or bytes (x - start) 0 else byte_in stores x

abbrev pub reg_in : List (Reg × ℕ) → Reg → ℕ
reg_in [] q = 0
reg_in ((r, v) ∷ regs) q = if reg_eq r q then v else reg_in regs q

abbrev overlaps : ℕ → ℕ → List Area → Bool
overlaps start size [] = false
overlaps start size (a ∷ areas) =
    (ltb 0 a.size && (ltb a.start (start + size) && ltb start (a.start + a.size)))
    || overlaps start size areas

abbrev mem_map : ℕ → ℕ → ℕ → Machine → ℕ × Machine
mem_map start size prot m =
    if overlaps start size m.areas
    then (11, m)
    else (0, record m { areas = record { start = start; size = size; prot = prot } ∷ m.areas })

abbrev pub word_in : List (ℕ × List ℕ) → ℕ → ℕ
word_in stores a = le_value (
    byte_in stores a
    ∷ byte_in stores (a + 1)
    ∷ byte_in stores (a + 2)
    ∷ byte_in stores (a + 3)
    ∷ [])

-- The five words of an `iret` to another ring.
abbrev pub pop_frame : Machine → Machine
pop_frame m =
    let a = reg_in m.regs esp in
    let word = word_in m.stores in
    record m {
      regs =
          (eip, word (a + 0))
          ∷ (cs, word (a + 4))
          ∷ (eflags, word (a + 8))
          ∷ (esp, word (a + 12))
          ∷ (ss, word (a + 16))
          ∷ m.regs;
    }

abbrev pub machine_host : Host
machine_host = record {
  World = Machine;
  uc_arch_x86 = 4;
  uc_mode_32 = 4;
  uc_mode_64 = 8;
  uc_prot_read = 1;
  uc_prot_write = 2;
  uc_prot_exec = 4;
  uc_open = λ arch mode m. ((0, 1), record m { mode = mode });
  uc_query_arch = λ uc m. (4, m);
  uc_query_mode = λ uc m. (m.mode, m);
  uc_mem_map = λ uc. mem_map;
  uc_mem_write = λ uc start bytes m. (0, record m { stores = (start, bytes) ∷ m.stores });
  uc_mem_protect = λ uc start size prot m.
      (0, record m { areas = record { start = start; size = size; prot = prot } ∷ m.areas });
  uc_mem_unmap = λ uc start size m. (0, m);
  uc_reg_write = λ uc r v m. (0, record m { regs = (r, v) ∷ m.regs });
  uc_gdtr_write = λ uc mmr m. (0, m);
  uc_reg_read = λ uc r m. ((0, reg_in m.regs r), m);
  uc_emu_start = λ uc begin until timeout count m.
      (0, if byte_in m.stores begin == 0xCF then pop_frame m else m);
  open_file = λ path m. (option_map (λ bytes. 3) m.file, m);
  fstat_size = λ fd m. (option_map length m.file, m);
  mmap = λ fd size m. (option_map (λ bytes. record { address = 0x10000; bytes = bytes }) m.file, m);
  munmap = λ mapping size m. m;
  close = λ fd m. m;
}

abbrev pub machine_view : View machine_host
machine_view = record {
  byte = λ uc x m. byte_in m.stores x;
  perms = λ uc x m. perms_in m.areas x;
  reg = λ uc r m. reg_in m.regs r;
}

overlaps-inside :
    (areas : List Area) (start size x : ℕ)
    → overlaps start size areas ≡ false
    → inside start size x ≡ true
    → perms_in areas x ≡ none
overlaps-inside [] start size x apart inner = refl
overlaps-inside (a ∷ areas) start size x apart inner =
    let rest = overlaps-inside areas start size x (ground arith) inner in
    let outer : inside a.start a.size x ≡ false = ground arith in rw (if◌then◌else◌, outer) rest

-- A call of `mem_map` that succeeds finds the area free and adds it.
pub mem_map_lem :
    (start size prot : ℕ) (m m' : Machine)
    → mem_map start size prot m ≡ (0, m')
    → (overlaps start size m.areas ≡ false)
      × (record m { areas = record { start = start; size = size; prot = prot } ∷ m.areas } ≡ m')
mem_map_lem start size prot m m' h = elim (Bool-cases (overlaps start size m.areas)) [
  | inl taken ↦ absurd (omega (arith, ap (λ p. p.0) (rw (if◌then◌else◌, taken) at h)))
  | inr free ↦ (free, ap (λ p. p.1) (rw (if◌then◌else◌, free) at h))
]

pub machine_memory : HasMemory machine_host machine_view
machine_memory = record {
  map_free = λ uc start size prot x m m' h inner.
      overlaps-inside m.areas start size x (mem_map_lem start size prot m m' h).0 inner;
  map_perms = λ uc start size prot x m m' h.
      ap (λ (n : Machine). perms_in n.areas x) (sym (mem_map_lem start size prot m m' h).1);
  map_byte = λ uc start size prot x m m' h outer.
      ap (λ (n : Machine). byte_in n.stores x) (sym (mem_map_lem start size prot m m' h).1);
  write_byte = λ uc start bytes x m m' h. ap (λ (p : ℕ × Machine). byte_in p.1.stores x) (sym h);
  write_perms = λ uc start bytes x m m' h. ap (λ (p : ℕ × Machine). perms_in p.1.areas x) (sym h);
  protect_perms =
      λ uc start size prot x m m' h. ap (λ (p : ℕ × Machine). perms_in p.1.areas x) (sym h);
  protect_byte =
      λ uc start size prot x m m' h. ap (λ (p : ℕ × Machine). byte_in p.1.stores x) (sym h);
  reg_keeps = λ uc r value x m m' h. record {
    byte_kept = ap (λ (p : ℕ × Machine). byte_in p.1.stores x) (sym h);
    perms_kept = ap (λ (p : ℕ × Machine). perms_in p.1.areas x) (sym h);
  };
  gdtr_keeps = λ uc mmr x m m' h. record {
    byte_kept = ap (λ (p : ℕ × Machine). byte_in p.1.stores x) (sym h);
    perms_kept = ap (λ (p : ℕ × Machine). perms_in p.1.areas x) (sym h);
  };
  read_keeps = λ uc r value x m m' h. record {
    byte_kept = ap (λ (p : (ℕ × ℕ) × Machine). byte_in p.1.stores x) (sym h);
    perms_kept = ap (λ (p : (ℕ × ℕ) × Machine). perms_in p.1.areas x) (sym h);
  };
}

pub machine_registers : HasRegisters machine_host machine_view
machine_registers = record {
  write_self = λ uc r value m m' h plain fits.
      ap (λ (p : ℕ × Machine). reg_in p.1.regs r) (sym h) ∙ rw (if◌then◌else◌, reg_eq_refl r);
  write_other = λ uc r q value m m' h apart.
      ap (λ (p : ℕ × Machine). reg_in p.1.regs q) (sym h)
      ∙ rw (if◌then◌else◌, touches-reg_eq r q apart);
  read_value = λ uc r value m m' h. ap (λ (p : (ℕ × ℕ) × Machine). p.0.1) (sym h);
  read_other = λ uc r q value m m' h. ap (λ (p : (ℕ × ℕ) × Machine). reg_in p.1.regs q) (sym h);
}

-- A free range overlaps no area.
taken : (o : Option ℕ) (b : Bool) (p : ℕ) → (if b then some p else o) ≡ none → b ≡ false
taken o true p h = cc
taken o false p h = refl

behind : (o : Option ℕ) (b : Bool) (p : ℕ) → (if b then some p else o) ≡ none → o ≡ none
behind o true p h = cc
behind o false p h = h

free-overlaps :
    (areas : List Area) (start size : ℕ)
    → 0 < size
    → ((x : ℕ) → inside start size x ≡ true → perms_in areas x ≡ none)
    → overlaps start size areas ≡ false
free-overlaps [] start size some_page free = refl
free-overlaps (a ∷ areas) start size some_page free =
    let later : overlaps start size areas ≡ false =
      free-overlaps areas start size some_page
        (λ x inner. behind (perms_in areas x) (inside a.start a.size x) a.prot (free x inner)) in
    let outer : (x : ℕ) → inside start size x ≡ true → inside a.start a.size x ≡ false =
      λ x inner. taken (perms_in areas x) (inside a.start a.size x) a.prot (free x inner) in
    let at_start : start < start + size → inside a.start a.size start ≡ false =
      λ lt. outer start (ground (arith, lt)) in
    let at_area : start ≤ a.start → a.start < start + size → inside a.start a.size a.start ≡ false =
      λ le lt. outer a.start (ground (arith, le, lt)) in
    ground (arith, later, at_start, at_area)

pub machine_progress : HasProgress machine_host machine_view
machine_progress = record {
  map_works = λ uc start size prot m paged ok free.
      rw (if◌then◌else◌, free-overlaps m.areas start size paged.some_page free) refl;
  write_works = λ uc start bytes m there. refl;
  protect_works = λ uc start size prot m paged ok there. refl;
  reg_works = λ uc r value m taken. refl;
  gdtr_works = λ uc mmr m. refl;
  read_works = λ uc r m. refl;
}
