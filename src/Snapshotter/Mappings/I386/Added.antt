-- ===== src/Snapshotter/Mappings/I386/Added.antt =====
-- What the i386 build of snapshotter/src/linux/mappings_reader.c adds to the file, whatever the
-- addresses are.
use process_bridge.Base.{
  ℕ, zero, suc, List, [], ◌++◌, ◌≡◌, returned, Bool-cases, inl, inr, ltb, ◌==◌, if◌then◌else◌, ◌-◌,
  ap, sym, ◌∙◌, append-nil, append_assoc, length, some, not, arith, >>-eq_returned,
  fatal_if-eq_returned, or_fatal-eq_returned,
}
use process_bridge.Snapshotter.Kernel.{Kernel, Streams, HasStreams, HasMaps}
use process_bridge.Snapshotter.Maps.{MapsIter, next, next_of, create_maps_iter}
use process_bridge.Common.MapsEntry.{MapsEntry, max_path, maps_entry_bytes}
use process_bridge.Snapshotter.Mappings.{buffer_size, chunk_bytes, is_special}
use process_bridge.Snapshotter.Mappings.Chunks.{checked_write, chunk_bytes_lem}
use process_bridge.Snapshotter.Mappings.Entries.{next_of_lem}
use process_bridge.Snapshotter.Mappings.File.{create_maps_iter_lem}
use process_bridge.Snapshotter.Mappings.I386.{
  dump_chunks32, dump_entry32, dump_entries32, dump_mappings_content32, write_snapshot32,
  entry_size32,
}

module _ (K : Kernel) (S : Streams K) (file : ℕ) where
  -- The file has only grown.
  record Grows (w w' : K.World) : Type 0 where
    added : List ℕ
    grown : S.contents file w' ≡ S.contents file w ++ added

  kept-Grows : (w w' : K.World) → S.contents file w' ≡ S.contents file w → Grows w w'
  kept-Grows w w' h = record { added = []; grown = h ∙ sym (append-nil (S.contents file w)) }

  Grows-trans : (u v w : K.World) → Grows u v → Grows v w → Grows u w
  Grows-trans u v w g h = record {
    added = g.added ++ h.added;
    grown =
        h.grown ∙ ap (λ c. c ++ h.added) g.grown ∙ append_assoc (S.contents file u) g.added h.added;
  }

module _ (K : Kernel) (S : Streams K) (streams : HasStreams K S) (pid file : ℕ) where
  dump_chunks32-Grows :
      (fuel readable address remaining : ℕ) (w w' : K.World)
      → dump_chunks32 K fuel pid file readable address remaining w ≡ returned tt w'
      → Grows K S file w w'
  unfolding dump_chunks32
  dump_chunks32-Grows zero readable address remaining w w' h = cc
  dump_chunks32-Grows (suc fuel) readable address remaining w w' h =
      elim (Bool-cases (remaining == 0)) [
        | inl done ↦
            let e = rw (dump_chunks32, done) at h in
            let same : w' ≡ w = cc in kept-Grows K S file w w' (ap (S.contents file) same)
        | inr more ↦
            let e = rw (dump_chunks32, more) at h in
            let chunk = if ltb buffer_size remaining then buffer_size else remaining in
            let (bytes, u, read, rest) =
              >>-eq_returned (chunk_bytes K pid readable address chunk w) _ e in
            let (_, kept) =
              chunk_bytes_lem K S streams pid file readable address chunk bytes w u read in
            let (v, written, further) = checked_write K S streams pid file bytes u _ w' rest in
            let one : Grows K S file w v = record {
              added = bytes;
              grown = written ∙ ap (λ c. c ++ bytes) kept;
            } in
            Grows-trans K S file w v w' one
              (dump_chunks32-Grows fuel readable _ (remaining - chunk) v w' further)
      ]

  dump_entry32-Grows :
      (e : MapsEntry) (w w' : K.World)
      → dump_entry32 K pid file e w ≡ returned tt w'
      → Grows K S file w w'
  unfolding dump_entry32
  dump_entry32-Grows e w w' h = elim (Bool-cases (is_special e.path)) [
    | inl special ↦
        let g = rw (if◌then◌else◌, special) at h in
        let same : w' ≡ w = cc in kept-Grows K S file w w' (ap (S.contents file) same)
    | inr plain ↦
        let g = rw (if◌then◌else◌, plain) at h in
        let (u, written, rest) = checked_write K S streams pid file (maps_entry_bytes e) w _ w' g in
        Grows-trans K S file w u w' (record { added = maps_entry_bytes e; grown = written })
          (dump_chunks32-Grows (suc (entry_size32 e)) e.read _ (entry_size32 e) u w' rest)
  ]

  module _ (maps : HasMaps K) where
    dump_entries32-Grows :
        (fuel : ℕ) (iter : MapsIter) (w w' : K.World)
        → length iter.path ≡ max_path
        → dump_entries32 K fuel pid file iter w ≡ returned tt w'
        → Grows K S file w w'
    unfolding dump_entries32 next
    dump_entries32-Grows zero iter w w' size h = cc
    dump_entries32-Grows (suc fuel) iter w w' size h =
        let got = K.getline iter.file w in
        let (entry, u, found, rest) = >>-eq_returned (next_of K iter got.0 got.1) _ h in
        let (kept_next, which) =
          next_of_lem K S streams maps pid file iter got.0 entry got.1 u size found in
        let kept = kept-Grows K S file w u (kept_next ∙ streams.getline_keeps file iter.file w) in
        elim which [
          | inl done ↦
              let g = rw done at rest in
              let same : w' ≡ u = cc in
              Grows-trans K S file w u w' kept
                (kept-Grows K S file u w' (ap (S.contents file) same))
          | inr (e, more, fits, ordered) ↦
              let g = rw more at rest in
              let (_, v, dumped, further) = >>-eq_returned (dump_entry32 K pid file e u) _ g in
              Grows-trans K S file w v w'
                (Grows-trans K S file w u v kept (dump_entry32-Grows e u v dumped))
                (dump_entries32-Grows fuel _ v w' fits.path_size further)
        ]

    dump_mappings_content32-Grows :
        (fuel : ℕ) (w w' : K.World)
        → dump_mappings_content32 K fuel pid file w ≡ returned tt w'
        → Grows K S file w w'
    unfolding dump_mappings_content32
    dump_mappings_content32-Grows fuel w w' h =
        let (iter, u, created, h1) = >>-eq_returned (create_maps_iter K pid w) _ h in
        let (path_size, kept) = create_maps_iter_lem K S streams maps pid file iter w u created in
        let m = K.malloc buffer_size u in
        let (_, h2) = fatal_if-eq_returned (not m.0) m.1 _ h1 in
        let (_, v, dumped, h3) = >>-eq_returned (dump_entries32 K fuel pid file iter m.1) _ h2 in
        let same : w' ≡ (K.fflush file v).1 = ground arith in
        let before = kept-Grows K S file w m.1 (streams.malloc_keeps file buffer_size u ∙ kept) in
        let after =
          kept-Grows K S file v w' (ap (S.contents file) same ∙ streams.fflush_keeps file v) in
        Grows-trans K S file w v w'
          (Grows-trans K S file w m.1 v before
            (dump_entries32-Grows fuel iter m.1 v path_size dumped))
          after

-- The file starts with the state.
pub write_snapshot32-front :
    (K : Kernel) (S : Streams K)
    → HasStreams K S
    → HasMaps K
    → (fuel : ℕ) (state : List ℕ) (pid : ℕ) (filename : List ℕ) (w w' : K.World)
    → write_snapshot32 K fuel state pid filename w ≡ returned tt w'
    → (file : ℕ) × (rest : List ℕ) × ((K.fopen_wb filename w).0 ≡ some file)
      × (S.contents file w' ≡ state ++ rest)
unfolding write_snapshot32
write_snapshot32-front K S streams maps fuel state pid filename w w' h =
    let (file, opened, h1) = or_fatal-eq_returned (K.fopen_wb filename) w _ h in
    let empty = streams.fopen_wb_empties file filename w opened in
    let (u, written, h2) =
      checked_write K S streams pid file state (K.fopen_wb filename w).1 _ w' h1 in
    let (_, v, dumped, h3) = >>-eq_returned (dump_mappings_content32 K fuel pid file u) _ h2 in
    let grows = dump_mappings_content32-Grows K S streams pid file maps fuel u v dumped in
    let same : w' ≡ (K.fclose file v).1 = ground arith in
    (
      file,
      grows.added,
      opened,
      ap (S.contents file) same
          ∙ streams.fclose_keeps file file v
          ∙ grows.grown
          ∙ ap (λ c. c ++ grows.added) (written ∙ ap (λ c. c ++ state) empty),
    )
