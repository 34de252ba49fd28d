-- ===== src/Snapshotter/ProcessInfo/Segments.antt =====
-- The lowest address of the segments of an ELF file.
use process_bridge.Base.{
  ℕ, zero, suc, ◌≡◌, ◌⊎◌, inl, inr, ◌≤◌, ◌<◌, ◌+◌, List, returned, ◌∙◌, Bool-cases, arith,
  fatal_if-eq_returned, ◌^◌, if◌then◌else◌, ◌==◌, not, ◌&&◌, or_fatal-eq_returned, ltb, subst,
}
use process_bridge.Snapshotter.Elf.{Elf, Phdr, HasFile}
use process_bridge.Snapshotter.ProcessInfo.{
  ElfInfo, layout_of, phdr_offset, min_vaddr_from, get_min_vaddr, size_max,
}

-- The program header at an index, by the bytes of the file.
abbrev pub phdr_at : {W : Type 0} → Elf W → (ℕ → ℕ → ℕ → List ℕ) → ElfInfo → ℕ → Phdr
phdr_at E content info i =
    (layout_of E info.class).phdr_of
      (content info.file (phdr_offset E info i) (layout_of E info.class).phdr_size)

-- The address of a segment that is loaded, among the program headers from `i` to before `j`.
pub record LoadsAt {W : Type 0} (E : Elf W) (content : ℕ → ℕ → ℕ → List ℕ) (info : ElfInfo)
    (i j vaddr : ℕ) : Type 0 where
  pub index : ℕ
  pub from : i ≤ index
  pub below : index < j
  pub loaded : (phdr_at E content info index).p_type ≡ E.pt_load
  pub address : vaddr ≡ (phdr_at E content info index).p_vaddr

abbrev lower : {W : Type 0} → Elf W → Phdr → ℕ → ℕ
lower E p min_vaddr =
    if p.p_type == E.pt_load && ltb p.p_vaddr min_vaddr then p.p_vaddr else min_vaddr

lower_lem :
    {W : Type 0} (E : Elf W) (p : Phdr) (min_vaddr : ℕ)
    → (lower E p min_vaddr ≤ min_vaddr)
      × ((lower E p min_vaddr ≡ min_vaddr)
          ⊎ ((p.p_type ≡ E.pt_load) × (lower E p min_vaddr ≡ p.p_vaddr)))
lower_lem E p min_vaddr = elim (Bool-cases (p.p_type == E.pt_load && ltb p.p_vaddr min_vaddr)) [
  | inl yes_lower ↦ (ground arith, inr (ground arith, ground arith))
  | inr no_lower ↦ (ground arith, inl (ground arith))
]

lower_loaded :
    {W : Type 0} (E : Elf W) (p : Phdr) (min_vaddr : ℕ)
    → p.p_type ≡ E.pt_load
    → lower E p min_vaddr ≤ p.p_vaddr
lower_loaded E p min_vaddr h = ground arith

module _ {W : Type 0} (E : Elf W) (info : ElfInfo) where
  min_vaddr_from-le :
      (rounds i min_vaddr m : ℕ) (w w' : W)
      → min_vaddr_from E rounds info i min_vaddr w ≡ returned m w'
      → m ≤ min_vaddr
  unfolding min_vaddr_from
  min_vaddr_from-le zero i min_vaddr m w w' h = let same : m ≡ min_vaddr = cc in omega (arith, same)
  min_vaddr_from-le (suc rounds) i min_vaddr m w w' h =
      let seek = E.fseek info.file (phdr_offset E info i) w in
      let layout = layout_of E info.class in
      let (_, h1) = fatal_if-eq_returned (not seek.0) seek.1 _ h in
      let (bytes, _, h2) = or_fatal-eq_returned (E.fread info.file layout.phdr_size) seek.1 _ h1 in
      let p = layout.phdr_of bytes in
      let rest = min_vaddr_from-le rounds (i + 1) (lower E p min_vaddr) m _ w' h2 in
      omega (arith, rest, (lower_lem E p min_vaddr).0)

  -- The lowest address is one of 64 bits.
  pub get_min_vaddr-le : (m : ℕ) (w w' : W) → get_min_vaddr E info w ≡ returned m w' → m ≤ size_max
  unfolding get_min_vaddr
  get_min_vaddr-le m w w' h = min_vaddr_from-le info.ehdr.e_phnum 0 size_max m w w' h

module _ {W : Type 0} (E : Elf W) (content : ℕ → ℕ → ℕ → List ℕ) (files : HasFile E content)
    (info : ElfInfo) where
  -- One round: the header that was read is that of the file.
  round :
      (rounds i min_vaddr m : ℕ) (w w' : W)
      → min_vaddr_from E (suc rounds) info i min_vaddr w ≡ returned m w'
      → (v : W) × (min_vaddr_from E rounds info
            (i + 1)
            (lower E (phdr_at E content info i) min_vaddr)
            v
          ≡ returned m w')
  unfolding min_vaddr_from
  round rounds i min_vaddr m w w' h =
      let offset = phdr_offset E info i in
      let seek = E.fseek info.file offset w in
      let layout = layout_of E info.class in
      let (sought, h1) = fatal_if-eq_returned (not seek.0) seek.1 _ h in
      let (bytes, read, h2) =
        or_fatal-eq_returned (E.fread info.file layout.phdr_size) seek.1 _ h1 in
      let same = files.read_at info.file offset layout.phdr_size bytes w (ground arith) read in
      (
        (E.fread info.file layout.phdr_size seek.1).1,
        subst
            (λ (b : List ℕ).
              min_vaddr_from E rounds info (i + 1) (lower E (layout.phdr_of b) min_vaddr)
                (E.fread info.file layout.phdr_size seek.1).1
              ≡ returned m w')
            same h2,
      )

  min_vaddr_from_bounds :
      (rounds i min_vaddr m : ℕ) (w w' : W)
      → min_vaddr_from E rounds info i min_vaddr w ≡ returned m w'
      → (m ≤ min_vaddr) × ((m ≡ min_vaddr) ⊎ LoadsAt E content info i (i + rounds) m)
  unfolding min_vaddr_from
  min_vaddr_from_bounds zero i min_vaddr m w w' h =
      let same : m ≡ min_vaddr = cc in (omega (arith, same), inl same)
  min_vaddr_from_bounds (suc rounds) i min_vaddr m w w' h =
      let p = phdr_at E content info i in
      let (v, rest) = round rounds i min_vaddr m w w' h in
      let (small, which) = min_vaddr_from_bounds rounds (i + 1) (lower E p min_vaddr) m v w' rest in
      let (smaller, kept) = lower_lem E p min_vaddr in
      (
        omega (arith, small, smaller),
        elim which [
          | inr later ↦ inr (record {
            index = later.index;
            from = omega (arith, later.from);
            below = omega (arith, later.below);
            loaded = later.loaded;
            address = later.address;
          })
          | inl here ↦ elim kept [
            | inl old ↦ inl (here ∙ old)
            | inr (is_load, new) ↦ inr (record {
              index = i;
              from = omega arith;
              below = omega arith;
              loaded = is_load;
              address = here ∙ new;
            })
          ]
        ],
      )

  min_vaddr_from_le :
      (rounds i min_vaddr m j : ℕ) (w w' : W)
      → min_vaddr_from E rounds info i min_vaddr w ≡ returned m w'
      → i ≤ j
      → j < i + rounds
      → (phdr_at E content info j).p_type ≡ E.pt_load
      → m ≤ (phdr_at E content info j).p_vaddr
  min_vaddr_from_le zero i min_vaddr m j w w' h le lt loads = absurd (omega arith)
  min_vaddr_from_le (suc rounds) i min_vaddr m j w w' h le lt loads =
      let p = phdr_at E content info i in
      let (v, rest) = round rounds i min_vaddr m w w' h in
      elim (Bool-cases (i == j)) [
        | inl here ↦
            let same : i ≡ j = ground arith in
            let (small, _) =
              min_vaddr_from_bounds rounds (i + 1) (lower E p min_vaddr) m v w' rest in
            let loads_here : p.p_type ≡ E.pt_load = rw same loads in
            let bound : m ≤ p.p_vaddr =
              omega (arith, small, lower_loaded E p min_vaddr loads_here) in
            rw (← same) bound
        | inr later ↦
            let next_le : i + 1 ≤ j = ground arith in
            min_vaddr_from_le rounds (i + 1) (lower E p min_vaddr) m j v w' rest next_le
              (omega arith) loads
      ]

  -- Where `get_min_vaddr` returns, for a file that is read as it is and has a segment that is loaded,
  -- at a 64-bit address, the result is the lowest address of the segments that are loaded: that of
  -- one of them, and none of any other index is lower.
  pub get_min_vaddr-lowest :
      (m i : ℕ) (w w' : W)
      → get_min_vaddr E info w ≡ returned m w'
      → i < info.ehdr.e_phnum
      → (phdr_at E content info i).p_type ≡ E.pt_load
      → (phdr_at E content info i).p_vaddr < 2 ^ 64
      → (m ≤ (phdr_at E content info i).p_vaddr) × LoadsAt E content info 0 info.ehdr.e_phnum m
  unfolding get_min_vaddr
  get_min_vaddr-lowest m i w w' h lt loads fits =
      let le =
        min_vaddr_from_le info.ehdr.e_phnum 0 size_max m i w w' h (omega arith) (omega arith)
          loads in
      let (_, which) = min_vaddr_from_bounds info.ehdr.e_phnum 0 size_max m w w' h in
      (
        le,
        elim which [
          | inl unset ↦ record {
            index = i;
            from = omega arith;
            below = lt;
            loaded = loads;
            address = omega (arith, le, unset, fits);
          }
          | inr found ↦ record {
            index = found.index;
            from = found.from;
            below = omega (arith, found.below);
            loaded = found.loaded;
            address = found.address;
          }
        ],
      )
