-- ===== src/Snapshotter/Mappings/Whole.antt =====
-- What the snapshotter writes, as a whole: the registers, and for every line of /proc/<pid>/maps the
-- section of its mapping.
use process_bridge.Base.{
  List, ℕ, length, ◌≡◌, returned, All, fatal_if-eq_returned, suc, ◌++◌, some, >>-eq_returned, inl,
  ap, inr, ◌∙◌, sym, not, append-nil, subst, zero, append_assoc, refl, or_fatal-eq_returned, arith,
}
use process_bridge.Snapshotter.Kernel.{Kernel, Streams, HasStreams, HasMaps}
use process_bridge.Snapshotter.Maps.{MapsIter, next, next_of, scanned_entry, create_maps_iter}
use process_bridge.Snapshotter.Mappings.{
  dump_snapshot, buffer_size, dump_entry, dump_entries, dump_mappings_content, write_snapshot,
}
use process_bridge.Snapshotter.Mappings.Memory.{mapping_bytes, CanRead, dump_entry-mapping_bytes}
use process_bridge.Common.MapsEntry.{max_path}
use process_bridge.Snapshotter.Mappings.Listing.{
  HasListing, entries_in, all_bytes, next_of-Gives, dump_entry_left,
}
use process_bridge.Common.X8664.{X8664Regs, x8664_regs_bytes}
use process_bridge.Snapshotter.Mappings.Chunks.{checked_write}

module _ (K : Kernel) (S : Streams K) (streams : HasStreams K S) (maps : HasMaps K)
    (left : ℕ → K.World → List (List ℕ)) (listed : HasListing K left) (pid : ℕ)
    (memory : ℕ → ℕ) where
  -- The entries of the lines that are left, all of which can be read.
  dump_entries-all_bytes :
      (file fuel : ℕ) (iter : MapsIter) (w w' : K.World)
      → length iter.path ≡ max_path
      → All (CanRead K pid memory) (entries_in K (left iter.file w) iter.path)
      → dump_entries K fuel pid file iter w ≡ returned tt w'
      → S.contents file w'
        ≡ S.contents file w ++ all_bytes memory (entries_in K (left iter.file w) iter.path)
  unfolding dump_entries next entries_in all_bytes
  dump_entries-all_bytes file zero iter w w' size can h = cc
  dump_entries-all_bytes file (suc fuel) iter w w' size can h =
      let got = K.getline iter.file w in
      let (entry, u, found, rest) = >>-eq_returned (next_of K iter got.0 got.1) _ h in
      let gives =
        next_of-Gives K S streams maps left listed pid file iter got.0 entry w u size refl found in
      elim gives.which [
        | inl (done, no_lines) ↦
            let g = rw done at rest in
            let same : w' ≡ u = cc in
            let kept =
              ap (S.contents file) same
              ∙ gives.contents_kept
              ∙ sym (append-nil (S.contents file w)) in
            kept
            ∙ ap (λ ls. S.contents file w ++ all_bytes memory (entries_in K ls iter.path))
                (sym no_lines)
        | inr (text, more, lines, fits, ordered) ↦
            let g = rw more at rest in
            let e = scanned_entry (K.sscanf_maps text iter.path) in
            let (_, v, dumped, further) = >>-eq_returned (dump_entry K pid file e u) _ g in
            let can_all =
              subst (λ ls. All (CanRead K pid memory) (entries_in K ls iter.path)) lines can in
            let added =
              dump_entry-mapping_bytes K S streams pid file memory e u v fits ordered can_all.0
                dumped in
            let same_lines =
              dump_entry_left K S streams maps left listed pid file iter.file e u v dumped in
            let next_iter : MapsIter = record { file = iter.file; path = e.path } in
            let can_rest =
              subst (λ ls. All (CanRead K pid memory) (entries_in K ls e.path)) (sym same_lines)
                can_all.1 in
            let later =
              dump_entries-all_bytes file fuel next_iter v w' fits.path_size can_rest further in
            later
            ∙ (λ i.
                (added ∙ ap (λ c. c ++ mapping_bytes memory e) gives.contents_kept) i
                ++ all_bytes memory (entries_in K (same_lines i) e.path))
            ∙ append_assoc (S.contents file w) (mapping_bytes memory e) _
            ∙ ap (λ ls. S.contents file w ++ all_bytes memory (entries_in K ls iter.path))
                (sym lines)
      ]

  opened_iter :
      (listing : List (List ℕ))
      → ((path : List ℕ) (from : ℕ) (w : K.World)
          → K.snprintf_maps pid ≡ some path
          → (K.fopen_rb path w).0 ≡ some from
          → left from (K.fopen_rb path w).1 ≡ listing)
      → (file : ℕ) (iter : MapsIter) (w u : K.World) → create_maps_iter K pid w ≡ returned iter u
      → (iter.path ≡ K.uninitialised_path)
        × (left iter.file u ≡ listing)
        × (S.contents file u ≡ S.contents file w)
  unfolding create_maps_iter
  opened_iter listing listed_first file iter w u h =
      let (path, named, h1) = or_fatal-eq_returned (λ v. (K.snprintf_maps pid, v)) w _ h in
      let (from, opened, h2) = or_fatal-eq_returned (K.fopen_rb path) w _ h1 in
      let world : u ≡ (K.fopen_rb path w).1 = cc in
      let is_from : iter.file ≡ from = cc in
      (
        cc,
        (λ i. left (is_from i) (world i)) ∙ listed_first path from w named opened,
        ap (S.contents file) world ∙ streams.fopen_rb_keeps file path w,
      )

  dump_mappings_content-all_bytes :
      (listing : List (List ℕ))
      → ((path : List ℕ) (from : ℕ) (w : K.World)
          → K.snprintf_maps pid ≡ some path
          → (K.fopen_rb path w).0 ≡ some from
          → left from (K.fopen_rb path w).1 ≡ listing)
      → All (CanRead K pid memory) (entries_in K listing K.uninitialised_path)
      → (file fuel : ℕ) (w w' : K.World) → dump_mappings_content K fuel pid file w ≡ returned tt w'
      → S.contents file w'
        ≡ S.contents file w ++ all_bytes memory (entries_in K listing K.uninitialised_path)
  unfolding dump_mappings_content
  dump_mappings_content-all_bytes listing listed_first can file fuel w w' h =
      let (iter, u, created, h1) = >>-eq_returned (create_maps_iter K pid w) _ h in
      let (path, lines, kept) = opened_iter listing listed_first file iter w u created in
      let m = K.malloc buffer_size u in
      let (_, h2) = fatal_if-eq_returned (not m.0) m.1 _ h1 in
      let (_, v, dumped, h3) = >>-eq_returned (dump_entries K fuel pid file iter m.1) _ h2 in
      let same_entries : entries_in K (left iter.file m.1) iter.path
          ≡ entries_in K listing K.uninitialised_path =
        λ i. entries_in K ((listed.malloc_left iter.file buffer_size u ∙ lines) i) (path i) in
      let added =
        dump_entries-all_bytes file fuel iter m.1 v (ap length path ∙ maps.uninitialised_size)
          (subst (All (CanRead K pid memory)) (sym same_entries) can) dumped in
      let before = streams.malloc_keeps file buffer_size u ∙ kept in
      let same : w' ≡ (K.fflush file v).1 = ground arith in
      ap (S.contents file) same
      ∙ streams.fflush_keeps file v
      ∙ added
      ∙ (λ i. before i ++ all_bytes memory (same_entries i))

  -- The file of a snapshot, by the bytes of its state.
  pub write_snapshot-all_bytes :
      (listing : List (List ℕ))
      → ((path : List ℕ) (from : ℕ) (w : K.World)
          → K.snprintf_maps pid ≡ some path
          → (K.fopen_rb path w).0 ≡ some from
          → left from (K.fopen_rb path w).1 ≡ listing)
      → All (CanRead K pid memory) (entries_in K listing K.uninitialised_path)
      → (fuel : ℕ) (state : List ℕ) (filename : List ℕ) (w w' : K.World)
      → write_snapshot K fuel state pid filename w ≡ returned tt w'
      → (file : ℕ) × ((K.fopen_wb filename w).0 ≡ some file)
        × (S.contents file w'
            ≡ state ++ all_bytes memory (entries_in K listing K.uninitialised_path))
  unfolding write_snapshot
  write_snapshot-all_bytes listing listed_first can fuel state filename w w' h =
      let (file, opened, h1) = or_fatal-eq_returned (K.fopen_wb filename) w _ h in
      let empty = streams.fopen_wb_empties file filename w opened in
      let (u, written, h2) =
        checked_write K S streams pid file state (K.fopen_wb filename w).1 _ w' h1 in
      let (_, v, dumped, h3) = >>-eq_returned (dump_mappings_content K fuel pid file u) _ h2 in
      let added = dump_mappings_content-all_bytes listing listed_first can file fuel u v dumped in
      let same : w' ≡ (K.fclose file v).1 = ground arith in
      let start = written ∙ ap (λ c. c ++ state) empty in
      let all = all_bytes memory (entries_in K listing K.uninitialised_path) in
      (
        file,
        opened,
        ap (S.contents file) same
            ∙ streams.fclose_keeps file file v
            ∙ added
            ∙ ap (λ c. c ++ all) start,
      )

  -- Where the x86_64 snapshotter returns, with streams and lines that keep their laws, and a process
  -- whose maps read as one listing and whose memory can be read wherever a mapping of it says so, the
  -- stream that it opened holds the registers and then, for each line of the listing in its order,
  -- the header of the mapping and the bytes of the memory there, or zeros if the mapping cannot be
  -- read, but nothing for the mappings of the kernel.
  pub dump_snapshot-all_bytes :
      (listing : List (List ℕ))
      → ((path : List ℕ) (from : ℕ) (w : K.World)
          → K.snprintf_maps pid ≡ some path
          → (K.fopen_rb path w).0 ≡ some from
          → left from (K.fopen_rb path w).1 ≡ listing)
      → All (CanRead K pid memory) (entries_in K listing K.uninitialised_path)
      → (fuel : ℕ) (s : X8664Regs) (filename : List ℕ) (w w' : K.World)
      → dump_snapshot K fuel s pid filename w ≡ returned tt w'
      → (file : ℕ) × ((K.fopen_wb filename w).0 ≡ some file)
        × (S.contents file w'
            ≡ x8664_regs_bytes s ++ all_bytes memory (entries_in K listing K.uninitialised_path))
  unfolding dump_snapshot
  dump_snapshot-all_bytes listing listed_first can fuel s filename w w' h =
      write_snapshot-all_bytes listing listed_first can fuel (x8664_regs_bytes s) filename w w' h
