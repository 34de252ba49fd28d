-- ===== src/Loader/Engine/Progress.antt =====
-- When the calls of the engine succeed, and the sections that suit them.
use process_bridge.Base.{
  [], ℕ, List, ◌<◌, ◌∷◌, length, All, bit_or, if◌then◌else◌, ◌≡◌, ◌+◌, ◌≤◌, returned, ◌==◌, true,
  ◌%◌, none, ◌^◌, some, ◌⊎◌, Bool-cases, false, refl, ◌≢◌, ◌∙◌, inl, ap, inr, arith, sym,
}
use process_bridge.Loader.Host.{Host, Reg, Mmr}
use process_bridge.Loader.Engine.{View, HasMemory, inside}
use process_bridge.Common.Snapshot.{Section}
use process_bridge.Loader.Check.{pb_uc_check, pb_uc_check_value}
use process_bridge.Loader.Dump.{entry_perms}
use process_bridge.Common.MapsEntry.{MapsEntry}
use process_bridge.Loader.Registers.{reg_bits}
use process_bridge.Loader.X8664.{table_index}

-- The permissions that are made of those of the engine.
pub data IsProt (H : Host) : ℕ → Type 0 where
  nothing : IsProt H 0
  reading : IsProt H H.uc_prot_read
  writing : IsProt H H.uc_prot_write
  executing : IsProt H H.uc_prot_exec
  both : (a b : ℕ) → IsProt H a → IsProt H b → IsProt H (bit_or a b)

-- A range of whole pages.
pub record IsPaged (start size : ℕ) : Type 0 where
  pub some_page : 0 < size
  pub start_aligned : start % 0x1000 ≡ 0
  pub size_aligned : size % 0x1000 ≡ 0
  pub range_fits : start + size ≤ 2 ^ 64

abbrev pub IsApart : ℕ → ℕ → ℕ → ℕ → Type 0
IsApart a n b m = (a + n ≤ b) ⊎ (b + m ≤ a)

-- A value that a register takes: it fits, and a selector is null or names one of the two segments of
-- a user process.
abbrev pub IsTaken : Reg → ℕ → Type 0
IsTaken r value =
    (value < 2 ^ reg_bits r)
    × ((reg_bits r ≢ 16)
        ⊎ (table_index value ≡ 0)
        ⊎ (table_index value ≡ 5)
        ⊎ (table_index value ≡ 6))

abbrev pub AreTaken : List (Reg × ℕ) → Type 0
AreTaken [] = Unit
AreTaken ((r, v) ∷ writes) = IsTaken r v × AreTaken writes

module _ (H : Host) (V : View H) where
  -- Whole pages can be mapped where they are free, and written and protected where they are mapped;
  -- the registers that the loader names can be written with values that they take, and read.
  pub record HasProgress : Type 0 where
    pub map_works :
        (uc start size prot : ℕ) (w : H.World)
        → IsPaged start size
        → IsProt H prot
        → ((x : ℕ) → inside start size x ≡ true → V.perms uc x w ≡ none)
        → (H.uc_mem_map uc start size prot w).0 ≡ 0
    pub write_works :
        (uc start : ℕ) (bytes : List ℕ) (w : H.World)
        → ((x : ℕ) → inside start (length bytes) x ≡ true → V.perms uc x w ≢ none)
        → (H.uc_mem_write uc start bytes w).0 ≡ 0
    pub protect_works :
        (uc start size prot : ℕ) (w : H.World)
        → IsPaged start size
        → IsProt H prot
        → ((x : ℕ) → inside start size x ≡ true → V.perms uc x w ≢ none)
        → (H.uc_mem_protect uc start size prot w).0 ≡ 0
    pub reg_works :
        (uc : ℕ) (r : Reg) (value : ℕ) (w : H.World)
        → IsTaken r value
        → (H.uc_reg_write uc r value w).0 ≡ 0
    pub gdtr_works : (uc : ℕ) (mmr : Mmr) (w : H.World) → (H.uc_gdtr_write uc mmr w).0 ≡ 0
    pub read_works : (uc : ℕ) (r : Reg) (w : H.World) → (H.uc_reg_read uc r w).0.0 ≡ 0

pub apart_outside : (a n b m x : ℕ) → IsApart a n b m → inside b m x ≡ true → inside a n x ≡ false
apart_outside a n b m x (inl below) h = ground arith
apart_outside a n b m x (inr above) h = ground arith

pub check_works :
    {W : Type 0} (f : W → ℕ × W) (w : W)
    → (f w).0 ≡ 0
    → (u : W) × (f w ≡ (0, u)) × (pb_uc_check f w ≡ returned tt u)
unfolding pb_uc_check
check_works f w h = ((f w).1, λ i. (h i, (f w).1), rw (h) refl)

pub value_works :
    {W : Type 0} (f : W → (ℕ × ℕ) × W) (w : W)
    → (f w).0.0 ≡ 0
    → (value : ℕ) × (u : W) × (pb_uc_check_value f w ≡ returned value u)
unfolding pb_uc_check_value
value_works f w h = ((f w).0.1, (f w).1, rw (h) refl)

module _ (H : Host) where
  allow-IsProt :
      (flag prot perms : ℕ)
      → IsProt H prot
      → IsProt H perms
      → IsProt H (if flag == 0 then perms else bit_or perms prot)
  allow-IsProt flag prot perms h k = elim (Bool-cases (flag == 0)) [
    | inl off ↦ rw (if◌then◌else◌, off) k
    | inr on ↦ rw (if◌then◌else◌, on) (both perms prot k h)
  ]

  pub entry_perms-IsProt : (e : MapsEntry) → IsProt H (entry_perms H e)
  unfolding entry_perms
  entry_perms-IsProt e =
      allow-IsProt e.exec _ _ executing
        (allow-IsProt e.write _ _ writing (allow-IsProt e.read _ _ reading nothing))

-- The pages of a section.
abbrev pub IsPagedSection : Section → Type 0
IsPagedSection s = IsPaged s.entry.start (length s.content)

-- No two of the sections share a page, and none has a page of the range.
abbrev pub AreApart : List Section → Type 0
AreApart [] = Unit
AreApart (s ∷ ss) =
    All (λ t. IsApart s.entry.start (length s.content) t.entry.start (length t.content)) ss
    × AreApart ss

abbrev pub AreOutside : ℕ → ℕ → List Section → Type 0
AreOutside start size ss = All (λ s. IsApart s.entry.start (length s.content) start size) ss

module _ (H : Host) (V : View H) (uc : ℕ) where
  abbrev pub IsFree : ℕ → ℕ → H.World → Type 0
  IsFree start size w = (x : ℕ) → inside start size x ≡ true → V.perms uc x w ≡ none

  abbrev pub AreFree : List Section → H.World → Type 0
  AreFree ss w = All (λ s. IsFree s.entry.start (length s.content) w) ss

module _ (H : Host) (V : View H) (memory : HasMemory H V) (progress : HasProgress H V)
    (uc : ℕ) where
  -- The three calls for a range that is free: it is mapped, written and protected.
  pub range_calls :
      (start size first_prot prot : ℕ) (bytes : List ℕ) (w : H.World)
      → length bytes ≡ size
      → IsPaged start size
      → IsProt H first_prot
      → IsProt H prot
      → IsFree H V uc start size w
      → (u v w' : H.World) × (pb_uc_check (H.uc_mem_map uc start size first_prot) w ≡ returned tt u)
        × (pb_uc_check (H.uc_mem_write uc start bytes) u ≡ returned tt v)
        × (pb_uc_check (H.uc_mem_protect uc start size prot) v ≡ returned tt w')
  range_calls start size first_prot prot bytes w h paged first_ok ok free =
      let (u, mapped, c1) =
        check_works (H.uc_mem_map uc start size first_prot) w
          (progress.map_works uc start size first_prot w paged first_ok free) in
      let there : (x : ℕ) → inside start size x ≡ true → V.perms uc x u ≡ some first_prot =
        λ x inner.
          memory.map_perms uc start size first_prot x w u mapped ∙ rw (if◌then◌else◌, inner) refl in
      let there_bytes : (x : ℕ) → inside start (length bytes) x ≡ true → V.perms uc x u ≢ none =
        λ x inner e. let at = there x (ap (λ n. inside start n x) (sym h) ∙ inner) in cc in
      let (v, written, c2) =
        check_works (H.uc_mem_write uc start bytes) u
          (progress.write_works uc start bytes u there_bytes) in
      let still : (x : ℕ) → inside start size x ≡ true → V.perms uc x v ≢ none = λ x inner e.
        let at = there x inner in
        let kept = memory.write_perms uc start bytes x u v written in cc in
      let (w', protected, c3) =
        check_works (H.uc_mem_protect uc start size prot) v
          (progress.protect_works uc start size prot v paged ok still) in
      (u, v, w', c1, c2, c3)
