-- ===== src/Snapshotter/Mappings/File.antt =====
-- The file that the snapshotter writes.
use process_bridge.Base.{
  or_fatal-eq_returned, ◌≡◌, ℕ, List, ◌++◌, returned, length, some, arith, not,
  fatal_if-eq_returned, ap, ◌∙◌, >>-eq_returned, All,
}
use process_bridge.Snapshotter.Kernel.{Kernel, Streams, HasStreams, HasMaps}
use process_bridge.Snapshotter.Mappings.{
  dump_snapshot, buffer_size, dump_entries, dump_mappings_content, write_snapshot,
}
use process_bridge.Snapshotter.Maps.{MapsIter, create_maps_iter}
use process_bridge.Common.Snapshot.{sections_bytes, Section, IsSection}
use process_bridge.Common.MapsEntry.{max_path}
use process_bridge.Common.X8664.{X8664Regs, x8664_regs_bytes}
use process_bridge.Snapshotter.Mappings.Chunks.{checked_write}
use process_bridge.Snapshotter.Mappings.Entries.{dump_entries_lem}

module _ (K : Kernel) (S : Streams K) (streams : HasStreams K S) (maps : HasMaps K)
    (pid file : ℕ) where
  pub create_maps_iter_lem :
      (iter : MapsIter) (w u : K.World)
      → create_maps_iter K pid w ≡ returned iter u
      → (length iter.path ≡ max_path) × (S.contents file u ≡ S.contents file w)
  unfolding create_maps_iter
  create_maps_iter_lem iter w u h =
      let (name, _, named) = or_fatal-eq_returned (λ v. (K.snprintf_maps pid, v)) w _ h in
      let (stream, _, opened) = or_fatal-eq_returned (K.fopen_rb name) w _ named in
      let same : u ≡ (K.fopen_rb name w).1 = cc in
      let path : K.uninitialised_path ≡ iter.path = cc in
      (
        rw (← path) maps.uninitialised_size,
        ap (S.contents file) same ∙ streams.fopen_rb_keeps file name w,
      )

  dump_mappings_content_lem :
      (fuel : ℕ) (w w' : K.World)
      → dump_mappings_content K fuel pid file w ≡ returned tt w'
      → (ss : List Section) × All IsSection ss
        × (S.contents file w' ≡ S.contents file w ++ sections_bytes ss)
  unfolding dump_mappings_content
  dump_mappings_content_lem fuel w w' h =
      let (iter, u, created, h1) = >>-eq_returned (create_maps_iter K pid w) _ h in
      let (path_size, kept) = create_maps_iter_lem iter w u created in
      let m = K.malloc buffer_size u in
      let (_, h2) = fatal_if-eq_returned (not m.0) m.1 _ h1 in
      let (_, v, dumped, h3) = >>-eq_returned (dump_entries K fuel pid file iter m.1) _ h2 in
      let (ss, good, added) =
        dump_entries_lem K S streams maps pid file fuel iter m.1 v path_size dumped in
      let same : w' ≡ (K.fflush file v).1 = ground arith in
      (
        ss,
        good,
        ap (S.contents file) same
            ∙ streams.fflush_keeps file v
            ∙ added
            ∙ ap (λ c. c ++ sections_bytes ss) (streams.malloc_keeps file buffer_size u ∙ kept),
      )

-- Where the snapshotter returns, with streams and lines that keep their laws, the stream that it
-- opened holds the bytes of the state and then a sequence of well-formed sections.
pub write_snapshot-sections :
    (K : Kernel) (S : Streams K)
    → HasStreams K S
    → HasMaps K
    → (fuel : ℕ) (state : List ℕ) (pid : ℕ) (filename : List ℕ) (w w' : K.World)
    → write_snapshot K fuel state pid filename w ≡ returned tt w'
    → (file : ℕ) × (ss : List Section) × ((K.fopen_wb filename w).0 ≡ some file)
      × All IsSection ss
      × (S.contents file w' ≡ state ++ sections_bytes ss)
unfolding write_snapshot
write_snapshot-sections K S streams maps fuel state pid filename w w' h =
    let (file, opened, h1) = or_fatal-eq_returned (K.fopen_wb filename) w _ h in
    let empty = streams.fopen_wb_empties file filename w opened in
    let (u, written, h2) =
      checked_write K S streams pid file state (K.fopen_wb filename w).1 _ w' h1 in
    let (_, v, dumped, h3) = >>-eq_returned (dump_mappings_content K fuel pid file u) _ h2 in
    let (ss, good, added) = dump_mappings_content_lem K S streams maps pid file fuel u v dumped in
    let same : w' ≡ (K.fclose file v).1 = ground arith in
    (
      file,
      ss,
      opened,
      good,
      ap (S.contents file) same
          ∙ streams.fclose_keeps file file v
          ∙ added
          ∙ ap (λ c. c ++ sections_bytes ss) (written ∙ ap (λ c. c ++ state) empty),
    )

-- On x86_64, where the state is the registers.
pub dump_snapshot-sections :
    (K : Kernel) (S : Streams K)
    → HasStreams K S
    → HasMaps K
    → (fuel : ℕ) (s : X8664Regs) (pid : ℕ) (filename : List ℕ) (w w' : K.World)
    → dump_snapshot K fuel s pid filename w ≡ returned tt w'
    → (file : ℕ) × (ss : List Section) × ((K.fopen_wb filename w).0 ≡ some file)
      × All IsSection ss
      × (S.contents file w' ≡ x8664_regs_bytes s ++ sections_bytes ss)
unfolding dump_snapshot
dump_snapshot-sections K S streams maps fuel s pid filename w w' h =
    write_snapshot-sections K S streams maps fuel (x8664_regs_bytes s) pid filename w w' h
