-- ===== src/Snapshotter/Mappings/Entries.antt =====
-- What the entries of /proc/<pid>/maps add to the file.
use process_bridge.Base.{
  refl, subst, ◌<◌, ◌^◌, pure, ◌≡◌, ℕ, List, ◌++◌, [], returned, length, suc, Option, ◌==◌, zero,
  Bool-cases, inl, some, if◌then◌else◌, arith, not, inr, fatal_if-eq_returned, ap, sym, ◌∙◌, none,
  append-nil, ltb, ◌≤◌, >>-eq_returned, append_assoc, All, ◌∷◌, length-set, ◌⊎◌,
}
use process_bridge.Snapshotter.Kernel.{
  Kernel, Streams, HasStreams, HasMaps, Scan, IsScan, Line, line, end_of_file, read_error,
}
use process_bridge.Snapshotter.Mappings.{dump_entry, dump_entries}
use process_bridge.Snapshotter.Maps.{flag, scanned_entry, next, next_of, parse_maps_str, MapsIter}
use process_bridge.Common.Snapshot.{sections_bytes, Section, IsSection}
use process_bridge.Common.MapsEntry.{MapsEntry, IsMapsEntry, max_path}
use process_bridge.Snapshotter.Mappings.Chunks.{dump_entry_lem}

flag_fits : (byte letter : ℕ) → flag byte letter < 256 ^ 1
flag_fits byte letter = ground arith

-- A line that was parsed gives an entry that fits the struct, with its bounds in their order.
scanned_entry-IsMapsEntry : (s : Scan) → IsScan s → IsMapsEntry (scanned_entry s)
unfolding scanned_entry
scanned_entry-IsMapsEntry s h = record {
  start_fits = h.start_fits;
  end_fits = h.end_fits;
  read_fits = flag_fits _ 114;
  write_fits = flag_fits _ 119;
  exec_fits = flag_fits _ 120;
  shared_fits = flag_fits _ 115;
  file_offset_fits = h.file_offset_fits;
  path_size = elim (Bool-cases (s.count == 4)) [
    | inl four ↦ rw (if◌then◌else◌, four) (length-set s.path 0 0 ∙ h.path_size)
    | inr more ↦ rw (if◌then◌else◌, more) h.path_size
  ];
}

sections_bytes-append :
    (ss ts : List Section) → sections_bytes (ss ++ ts) ≡ sections_bytes ss ++ sections_bytes ts
unfolding sections_bytes
sections_bytes-append [] ts = refl
sections_bytes-append (s ∷ ss) ts = rw (sections_bytes-append ss ts, append_assoc, append_assoc)

more_sections :
    (before : List ℕ) (ss ts : List Section) {start middle last : List ℕ}
    → start ≡ before
    → middle ≡ start ++ sections_bytes ss
    → last ≡ middle ++ sections_bytes ts
    → last ≡ before ++ sections_bytes (ss ++ ts)
more_sections before ss ts kept first second =
    second
    ∙ ap (λ c. c ++ sections_bytes ts) (first ∙ ap (λ c. c ++ sections_bytes ss) kept)
    ∙ append_assoc before (sections_bytes ss) (sections_bytes ts)
    ∙ ap (λ c. before ++ c) (sym (sections_bytes-append ss ts))

All-append : {A : Type 0} (P : A → Type 0) (xs ys : List A) → All P xs → All P ys → All P (xs ++ ys)
All-append P [] ys h k = k
All-append P (x ∷ xs) ys h k = (h.0, All-append P xs ys h.1 k)

module _ (K : Kernel) (S : Streams K) (streams : HasStreams K S) (maps : HasMaps K)
    (pid file : ℕ) where
  pub parsed :
      (text path : List ℕ) (e : MapsEntry) (w w' : K.World)
      → length path ≡ max_path
      → parse_maps_str K text path w ≡ returned e w'
      → (w' ≡ w) × IsMapsEntry e × (e.start ≤ e.end)
  unfolding parse_maps_str scanned_entry
  parsed text path e w w' size h =
      let scan = K.sscanf_maps text path in
      let (enough, rest) =
        fatal_if-eq_returned (ltb scan.count 4) w (λ _. pure (scanned_entry scan)) h in
      let good = maps.scanned text path size (ground arith) in
      let same : scanned_entry scan ≡ e = cc in
      (
        cc,
        subst IsMapsEntry same (scanned_entry-IsMapsEntry scan good),
        subst (λ (d : MapsEntry). d.start ≤ d.end) same good.ordered,
      )

  -- What `next` gives is the end, or an entry that fits the struct; the file is left alone.
  pub next_of_lem :
      (iter : MapsIter) (got : Line) (entry : Option MapsEntry) (w w' : K.World)
      → length iter.path ≡ max_path
      → next_of K iter got w ≡ returned entry w'
      → (S.contents file w' ≡ S.contents file w)
        × ((entry ≡ none)
            ⊎ ((e : MapsEntry) × (entry ≡ some e) × IsMapsEntry e × (e.start ≤ e.end)))
  unfolding next_of
  next_of_lem iter (line text) entry w w' size h =
      let (e, u, parse, rest) = >>-eq_returned (parse_maps_str K text iter.path w) _ h in
      let (kept, fits, ordered) = parsed text iter.path e w u size parse in
      let same : w' ≡ w = cc in (ap (S.contents file) same, inr (e, cc, fits, ordered))
  next_of_lem iter end_of_file entry w w' size h =
      let (closed, rest) =
        fatal_if-eq_returned (not (K.fclose iter.file w).0) (K.fclose iter.file w).1
          (λ _. pure none) h in
      let same : w' ≡ (K.fclose iter.file w).1 = cc in
      (ap (S.contents file) same ∙ streams.fclose_keeps file iter.file w, inl cc)
  next_of_lem iter read_error entry w w' size h = cc

  pub dump_entries_lem :
      (fuel : ℕ) (iter : MapsIter) (w w' : K.World)
      → length iter.path ≡ max_path
      → dump_entries K fuel pid file iter w ≡ returned tt w'
      → (ss : List Section) × All IsSection ss
        × (S.contents file w' ≡ S.contents file w ++ sections_bytes ss)
  unfolding dump_entries next sections_bytes
  dump_entries_lem zero iter w w' size h = cc
  dump_entries_lem (suc fuel) iter w w' size h =
      let got = K.getline iter.file w in
      let (entry, u, found, rest) = >>-eq_returned (next_of K iter got.0 got.1) _ h in
      let (kept_next, which) = next_of_lem iter got.0 entry got.1 u size found in
      let kept = kept_next ∙ streams.getline_keeps file iter.file w in
      elim which [
        | inl done ↦
            let g = rw done at rest in
            let same : w' ≡ u = cc in
            ([], tt, ap (S.contents file) same ∙ kept ∙ sym (append-nil (S.contents file w)))
        | inr (e, more, fits, ordered) ↦
            let g = rw more at rest in
            let (_, v, dumped, further) = >>-eq_returned (dump_entry K pid file e u) _ g in
            let (ss, good, added) = dump_entry_lem K S streams pid file e u v fits ordered dumped in
            let (ts, all_good, all_added) = dump_entries_lem fuel _ v w' fits.path_size further in
            (
              ss ++ ts,
              All-append IsSection ss ts good all_good,
              more_sections (S.contents file w) ss ts kept added all_added,
            )
      ]
