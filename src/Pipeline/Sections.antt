-- ===== src/Pipeline/Sections.antt =====
-- The sections that snapshotter/src/linux/mappings_reader.c writes of the memory of a process.
use process_bridge.Base.{
  ℕ, ◌<◌, List, length, get_or, ◌-◌, ◌≤◌, replicate, All, get_elem?, ◌≡◌, ◌∷◌, if◌then◌else◌, some,
  suc, Bool-cases, ◌+◌, ◌==◌, arith, zero, inl, ap, false, [], refl, inr, length-replicate, ◌∙◌,
  append_assoc, returned, ◌++◌, sym,
}
use process_bridge.Snapshotter.Kernel.{Kernel, Streams, HasStreams, HasMaps}
use process_bridge.Snapshotter.Mappings.Memory.{
  bytes_from, range_bytes, mapping_bytes, CanRead, length-bytes_from,
}
use process_bridge.Common.MapsEntry.{MapsEntry, IsMapsEntry, maps_entry_bytes}
use process_bridge.Snapshotter.Mappings.Listing.{all_bytes, HasListing, entries_in}
use process_bridge.Common.Snapshot.{Section, sections_bytes, IsSection}
use process_bridge.Snapshotter.Mappings.{is_special, write_snapshot}
use process_bridge.Snapshotter.Mappings.Whole.{write_snapshot-all_bytes}
use process_bridge.Loader.Host.{Host}
use process_bridge.Loader.Engine.{View}
use process_bridge.Loader.Engine.Memory.{HoldsAt}
use process_bridge.Loader.Dump.{entry_perms}

-- An entry that fits its struct, with its bounds in their order.
abbrev pub IsEntry : MapsEntry → Type 0
IsEntry e = IsMapsEntry e × (e.start ≤ e.end)

abbrev pub section_of : (ℕ → ℕ) → MapsEntry → Section
section_of memory e = record {
  entry = e;
  content = range_bytes memory e.read e.start (e.end - e.start);
}

-- The sections of the entries that are not of the kernel.
unfoldable pub sections_of : (ℕ → ℕ) → List MapsEntry → List Section
sections_of memory [] = []
sections_of memory (e ∷ es) =
    let rest = sections_of memory es in
    if is_special e.path then rest else section_of memory e ∷ rest

all_bytes-sections_of :
    (memory : ℕ → ℕ) (es : List MapsEntry)
    → all_bytes memory es ≡ sections_bytes (sections_of memory es)
unfolding all_bytes mapping_bytes sections_of sections_bytes
all_bytes-sections_of memory [] = refl
all_bytes-sections_of memory (e ∷ es) = elim (Bool-cases (is_special e.path)) [
  | inl special ↦ rw (if◌then◌else◌, special) (all_bytes-sections_of memory es)
  | inr plain ↦
      rw (if◌then◌else◌, plain)
        (append_assoc (maps_entry_bytes e) _ _
          ∙ ap
              (λ c.
                maps_entry_bytes e ++ (range_bytes memory e.read e.start (e.end - e.start) ++ c))
              (all_bytes-sections_of memory es))
]

pub length-range_bytes :
    (memory : ℕ → ℕ) (readable a n : ℕ) → length (range_bytes memory readable a n) ≡ n
unfolding range_bytes
length-range_bytes memory readable a n = elim (Bool-cases (readable == 0)) [
  | inl zeros ↦ rw (if◌then◌else◌, zeros) (length-replicate {A = ℕ} n 0)
  | inr reads ↦ rw (if◌then◌else◌, reads) (length-bytes_from memory a n)
]

pub sections_of-IsSection :
    (memory : ℕ → ℕ) (es : List MapsEntry) → All IsEntry es → All IsSection (sections_of memory es)
unfolding sections_of
sections_of-IsSection memory [] good = tt
sections_of-IsSection memory (e ∷ es) good = elim (Bool-cases (is_special e.path)) [
  | inl special ↦ rw (if◌then◌else◌, special) (sections_of-IsSection memory es good.1)
  | inr plain ↦
      rw (if◌then◌else◌, plain)
        (
          record {
            entry_fits = good.0.0;
            ordered = good.0.1;
            content_size = length-range_bytes memory e.read e.start (e.end - e.start);
          },
          sections_of-IsSection memory es good.1,
        )
]

-- An entry that is not of the kernel has its section.
pub sections_of-get_elem? :
    (memory : ℕ → ℕ) (es : List MapsEntry) (i : ℕ) (e : MapsEntry)
    → get_elem? es i ≡ some e
    → is_special e.path ≡ false
    → (j : ℕ) × (get_elem? (sections_of memory es) j ≡ some (section_of memory e))
unfolding sections_of
sections_of-get_elem? memory [] i e at plain = cc
sections_of-get_elem? memory (d ∷ es) zero e at plain =
    let same : d ≡ e = cc in
    let plain_d : is_special d.path ≡ false = rw same plain in
    (0, rw (if◌then◌else◌, plain_d) (ap (λ x. some (section_of memory x)) same))
sections_of-get_elem? memory (d ∷ es) (suc i) e at plain =
    let (j, found) = sections_of-get_elem? memory es i e at plain in
    elim (Bool-cases (is_special d.path)) [
      | inl special ↦ (j, rw (if◌then◌else◌, special) found)
      | inr other ↦ (suc j, rw (if◌then◌else◌, other) found)
    ]

get_or-bytes_from :
    (memory : ℕ → ℕ) (a n k : ℕ) → k < n → get_or (bytes_from memory a n) k 0 ≡ memory (a + k)
unfolding bytes_from
get_or-bytes_from memory a zero k lt = absurd (omega arith)
get_or-bytes_from memory a (suc n) zero lt = let e : a ≡ a + 0 = omega arith in ap memory e
get_or-bytes_from memory a (suc n) (suc k) lt =
    let e : a + 1 + k ≡ a + suc k = omega arith in
    get_or-bytes_from memory (a + 1) n k (omega arith) ∙ ap memory e

get_or-replicate : (n k v : ℕ) → get_or (replicate n v) k v ≡ v
get_or-replicate zero k v = refl
get_or-replicate (suc n) zero v = refl
get_or-replicate (suc n) (suc k) v = get_or-replicate n k v

get_or-range_bytes :
    (memory : ℕ → ℕ) (readable a n k : ℕ)
    → k < n
    → get_or (range_bytes memory readable a n) k 0 ≡ (if readable == 0 then 0 else memory (a + k))
unfolding range_bytes
get_or-range_bytes memory readable a n k lt = elim (Bool-cases (readable == 0)) [
  | inl zeros ↦ rw (if◌then◌else◌, zeros) (get_or-replicate n k 0)
  | inr reads ↦ rw (if◌then◌else◌, reads) (get_or-bytes_from memory a n k lt)
]

-- The sections of a listing of maps.
abbrev pub sections_in : Kernel → (ℕ → ℕ) → List (List ℕ) → List Section
sections_in K memory listing = sections_of memory (entries_in K listing K.uninitialised_path)

module _ (K : Kernel) (S : Streams K) (streams : HasStreams K S) (maps : HasMaps K)
    (left : ℕ → K.World → List (List ℕ)) (listed : HasListing K left) (pid : ℕ)
    (memory : ℕ → ℕ) where
  -- The file of a snapshot, as its state and its sections.
  pub write_snapshot-sections_of :
      (listing : List (List ℕ))
      → ((path : List ℕ) (from : ℕ) (w : K.World)
          → K.snprintf_maps pid ≡ some path
          → (K.fopen_rb path w).0 ≡ some from
          → left from (K.fopen_rb path w).1 ≡ listing)
      → All (CanRead K pid memory) (entries_in K listing K.uninitialised_path)
      → (fuel : ℕ) (state filename : List ℕ) (file : ℕ) (w w' : K.World)
      → write_snapshot K fuel state pid filename w ≡ returned tt w'
      → (K.fopen_wb filename w).0 ≡ some file
      → S.contents file w'
        ≡ state ++ sections_bytes (sections_of memory (entries_in K listing K.uninitialised_path))
  write_snapshot-sections_of listing first can fuel state filename file w w' h opened =
      let es = entries_in K listing K.uninitialised_path in
      let (file', opened', contents) =
        write_snapshot-all_bytes K S streams maps left listed pid memory listing first can fuel
          state filename w w' h in
      let same : file' ≡ file = cc in
      ap (λ f. S.contents f w') (sym same)
      ∙ contents
      ∙ ap (λ c. state ++ c) (all_bytes-sections_of memory es)

-- An address of a section that the engine holds has the byte of the process.
pub HoldsAt-section_of :
    (H : Host) (V : View H) (uc : ℕ) (memory : ℕ → ℕ) (e : MapsEntry) (k : ℕ) (v : H.World)
    → k < e.end - e.start
    → HoldsAt H V uc (section_of memory e) k v
    → (V.byte uc (e.start + k) v ≡ (if e.read == 0 then 0 else memory (e.start + k)))
      × (V.perms uc (e.start + k) v ≡ some (entry_perms H e))
HoldsAt-section_of H V uc memory e k v lt held = (
  held.byte_there ∙ get_or-range_bytes memory e.read e.start (e.end - e.start) k lt,
  held.perms_there,
)
