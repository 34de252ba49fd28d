-- ===== src/Snapshotter/ProcessInfo/ImageBase.antt =====
-- The image base of a process.
use process_bridge.Base.{
  ℕ, zero, suc, List, [], ◌∷◌, some, none, ◌≡◌, ◌≢◌, ◌⊎◌, inl, inr, ◌≤◌, ◌<◌, ◌+◌, ◌-◌, ◌%◌, ◌^◌,
  Run, pure, returned, All, get_elem?, >>-eq_returned, out_of_fuel, if◌then◌else◌, Option-cases,
  ltb, ◌>>=◌, ◌&&◌, Bool-cases, ◌∙◌, ap, fatal_if-eq_returned, arith, sym, not, ◌==◌, refl, false,
}
use process_bridge.Base.Text.{c_string, same_text}
use process_bridge.Common.MapsEntry.{MapsEntry}
use process_bridge.Snapshotter.Elf.{Elf}
use process_bridge.Snapshotter.Kernel.{Kernel}
use process_bridge.Snapshotter.Maps.{MapsIter, next, create_maps_iter}
use process_bridge.Snapshotter.ProcessInfo.{
  ElfInfo, size_max, is_pie, get_min_vaddr, min_start_from, get_image_base_via_elf_info, pie_base,
}
use process_bridge.Snapshotter.ProcessInfo.Segments.{get_min_vaddr-le}

module _ (K : Kernel) where
  -- All the entries that an iterator gives.
  unfoldable pub entries_of : ℕ → MapsIter → Run K.World (List MapsEntry)
  entries_of zero iter = λ w. out_of_fuel
  entries_of (suc fuel) iter = do
    entry ← next K iter
    elim entry [
      | none ↦ pure []
      | some e ↦ do
        rest ← entries_of fuel (record { file = iter.file; path = e.path })
        pure (e ∷ rest)
    ]

-- The starts of the mappings of a file.
unfoldable pub starts_of : List ℕ → List MapsEntry → List ℕ
starts_of path [] = []
starts_of path (e ∷ es) =
    let rest = starts_of path es in
    if same_text (c_string e.path) (c_string path) then e.start ∷ rest else rest

abbrev lower_start : List ℕ → MapsEntry → ℕ → ℕ
lower_start path e lo =
    if same_text (c_string e.path) (c_string path) && ltb e.start lo then e.start else lo

unfoldable pub lowest_from : ℕ → List ℕ → ℕ
lowest_from lo [] = lo
lowest_from lo (x ∷ xs) = lowest_from (if ltb x lo then x else lo) xs

lowest_from-starts_of :
    (path : List ℕ) (e : MapsEntry) (es : List MapsEntry) (lo : ℕ)
    → lowest_from (lower_start path e lo) (starts_of path es)
      ≡ lowest_from lo (starts_of path (e ∷ es))
unfolding lowest_from starts_of
lowest_from-starts_of path e es lo =
    elim (Bool-cases (same_text (c_string e.path) (c_string path))) [
      | inl same ↦ rw (same, if◌then◌else◌)
      | inr other ↦ rw (other, if◌then◌else◌)
    ]

unequal : (a b : ℕ) → (a == b) ≡ false → a ≢ b
unequal a b h e = ground arith

lower_of :
    (x lo : ℕ)
    → let low = if ltb x lo then x else lo in (low ≤ x) × (low ≤ lo) × ((low ≡ lo) ⊎ (low ≡ x))
lower_of x lo = elim (Bool-cases (ltb x lo)) [
  | inl lower ↦ (ground arith, ground arith, inr (ground arith))
  | inr higher ↦ (ground arith, ground arith, inl (ground arith))
]

-- The lowest number of a list and a bound: below all of them, and the bound or one of them.
lowest_from_lem :
    (lo : ℕ) (xs : List ℕ)
    → (lowest_from lo xs ≤ lo)
      × ((lowest_from lo xs ≡ lo) ⊎ ((k : ℕ) × (get_elem? xs k ≡ some (lowest_from lo xs))))
unfolding lowest_from
lowest_from_lem lo [] = (omega arith, inl refl)
lowest_from_lem lo (x ∷ xs) =
    let (small, which) = lowest_from_lem (if ltb x lo then x else lo) xs in
    let (_, le_lo, old_or_new) = lower_of x lo in
    (
      omega (arith, small, le_lo),
      elim which [
        | inr (k, later) ↦ inr (suc k, later)
        | inl here ↦ elim old_or_new [
          | inl old ↦ inl (here ∙ old)
          | inr new ↦ inr (0, ap some (sym (here ∙ new)))
        ]
      ],
    )

lowest_from-All : (lo : ℕ) (xs : List ℕ) (b : ℕ) → b ≤ lowest_from lo xs → All (λ x. b ≤ x) xs
unfolding lowest_from
lowest_from-All lo [] b h = tt
lowest_from-All lo (x ∷ xs) b h =
    let low = if ltb x lo then x else lo in
    (omega (arith, h, (lowest_from_lem low xs).0, (lower_of x lo).0), lowest_from-All low xs b h)

module _ (K : Kernel) where
  min_start_from_lem :
      (fuel : ℕ) (iter : MapsIter) (path : List ℕ) (lo m : ℕ) (w w' : K.World)
      → min_start_from K fuel iter path lo w ≡ returned m w'
      → (es : List MapsEntry) × (entries_of K fuel iter w ≡ returned es w')
        × (m ≡ lowest_from lo (starts_of path es))
  unfolding min_start_from entries_of starts_of lowest_from
  min_start_from_lem zero iter path lo m w w' h = cc
  min_start_from_lem (suc fuel) iter path lo m w w' h =
      let (entry, u, found, rest) = >>-eq_returned (next K iter w) _ h in
      elim (Option-cases entry) [
        | inl done ↦
            let g = rw done at rest in
            let same : u ≡ w' = cc in ([], rw (found, done) (ap (returned []) same), cc)
        | inr (e, more) ↦
            let g = rw more at rest in
            let (es, all, low) = min_start_from_lem fuel _ path (lower_start path e lo) m u w' g in
            (e ∷ es, rw (found, more, all), low ∙ lowest_from-starts_of path e es lo)
      ]

-- What the image base of a position-independent file is computed from: the address that is found
-- for its segments, the mappings of the process, and the lowest start of those of the file.
pub record IsLoadedAt (K : Kernel) (E : Elf K.World) (fuel : ℕ) (info : ElfInfo) (w w' : K.World)
    (base : ℕ) : Type 0 where
  pub min_vaddr : ℕ
  pub lowest : ℕ
  pub after_elf : K.World
  pub opened : K.World
  pub iter : MapsIter
  pub entries : List MapsEntry
  pub segments : get_min_vaddr E info w ≡ returned min_vaddr after_elf
  pub maps : create_maps_iter K info.pid after_elf ≡ returned iter opened
  pub all_entries : entries_of K fuel iter opened ≡ returned entries w'
  pub none_lower : All (λ x. lowest ≤ x) (starts_of info.path entries)
  pub is_start : (k : ℕ) × (get_elem? (starts_of info.path entries) k ≡ some lowest)
  pub distance : (base + min_vaddr) % 2 ^ 64 ≡ lowest % 2 ^ 64
  pub fits : base < 2 ^ 64

module _ (K : Kernel) (E : Elf K.World) where
  pie_base-IsLoadedAt :
      (fuel : ℕ) (info : ElfInfo) (base : ℕ) (w w' : K.World)
      → pie_base K E fuel info w ≡ returned base w'
      → IsLoadedAt K E fuel info w w' base
  unfolding pie_base
  pie_base-IsLoadedAt fuel info base w w' h =
      let (min_vaddr, u, segments, h1) = >>-eq_returned (get_min_vaddr E info w) _ h in
      let (iter, v, created, h2) = >>-eq_returned (create_maps_iter K info.pid u) _ h1 in
      let (lowest, t, searched, h3) =
        >>-eq_returned (min_start_from K fuel iter info.path size_max v) _ h2 in
      let (found, last) = fatal_if-eq_returned (lowest == size_max) t _ h3 in
      let (entries, all, low) =
        min_start_from_lem K fuel iter info.path size_max lowest v t searched in
      let starts = starts_of info.path entries in
      let world : t ≡ w' = cc in
      let value : base ≡ (lowest + 2 ^ 64 - min_vaddr) % 2 ^ 64 = cc in
      record {
        min_vaddr = min_vaddr;
        lowest = lowest;
        after_elf = u;
        opened = v;
        iter = iter;
        entries = entries;
        segments = segments;
        maps = created;
        all_entries = all ∙ ap (returned entries) world;
        none_lower = lowest_from-All size_max starts lowest (omega (arith, low));
        is_start = elim (lowest_from_lem size_max starts).1 [
          | inl unset ↦ absurd (unequal lowest size_max found (low ∙ unset))
          | inr (k, at_k) ↦ (k, at_k ∙ ap some (sym low))
        ];
        distance = omega (arith, value, get_min_vaddr-le E info min_vaddr w u segments);
        fits = omega (arith, value);
      }

  -- By the kind of the file.
  pub get_image_base_via_elf_info-loaded :
      (fuel : ℕ) (info : ElfInfo) (base : ℕ) (w w' : K.World)
      → get_image_base_via_elf_info K E fuel info w ≡ returned base w'
      → ((info.ehdr.e_type ≡ E.et_exec) × (base ≡ 0) × (w' ≡ w))
        ⊎ ((info.ehdr.e_type ≡ E.et_dyn) × IsLoadedAt K E fuel info w w' base)
  unfolding get_image_base_via_elf_info is_pie
  get_image_base_via_elf_info-loaded fuel info base w w' h =
      let t = info.ehdr.e_type in
      let (pie, u, typed, h1) = >>-eq_returned (is_pie E info w) _ h in
      let (known, decided) =
        fatal_if-eq_returned (not (t == E.et_dyn) && not (t == E.et_exec)) w _ typed in
      let is_dyn : pie ≡ (t == E.et_dyn) = cc in
      let same : u ≡ w = cc in
      elim (Bool-cases (t == E.et_dyn)) [
        | inr exec ↦ let g = rw (is_dyn, exec, if◌then◌else◌) at h1 in inl (ground arith, cc, cc)
        | inl dyn ↦
            let g = rw (is_dyn, dyn, if◌then◌else◌) at h1 in
            inr (ground arith, rw same at (pie_base-IsLoadedAt fuel info base u w' g))
      ]
