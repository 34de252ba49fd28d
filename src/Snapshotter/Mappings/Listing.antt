-- ===== src/Snapshotter/Mappings/Listing.antt =====
-- The file that the snapshotter writes, by the lines of /proc/<pid>/maps and the memory of the
-- process.
use process_bridge.Base.{
  [], List, ℕ, Option, length, ◌≡◌, ◌∷◌, none, returned, Bool-cases, fatal_if-eq_returned, suc,
  ◌++◌, ◌⊎◌, ltb, some, >>-eq_returned, inl, ◌==◌, ap, if◌then◌else◌, inr, ◌∙◌, ◌≤◌, sym, not, ◌-◌,
  subst, zero, pure,
}
use process_bridge.Snapshotter.Kernel.{
  Kernel, Streams, HasStreams, HasMaps, Line, line, end_of_file, read_error,
}
use process_bridge.Snapshotter.Maps.{MapsIter, next_of, parse_maps_str, scanned_entry}
use process_bridge.Snapshotter.Mappings.{
  chunk_bytes, dump_chunks, buffer_size, dump_entry, is_special, entry_size,
}
use process_bridge.Snapshotter.Mappings.Memory.{mapping_bytes}
use process_bridge.Snapshotter.Mappings.Entries.{parsed}
use process_bridge.Common.MapsEntry.{MapsEntry, max_path, IsMapsEntry, maps_entry_bytes}

-- A stream gives its lines one by one, and other calls leave them.
pub record HasListing (K : Kernel) (left : ℕ → K.World → List (List ℕ)) : Type 0 where
  pub getline_line :
      (from : ℕ) (text : List ℕ) (w : K.World)
      → (K.getline from w).0 ≡ line text
      → left from w ≡ text ∷ left from (K.getline from w).1
  pub getline_end : (from : ℕ) (w : K.World) → (K.getline from w).0 ≡ end_of_file → left from w ≡ []
  pub fwrite_left :
      (from file : ℕ) (bytes : List ℕ) (w : K.World)
      → left from (K.fwrite file bytes w).1 ≡ left from w
  pub readv_left :
      (from pid address size : ℕ) (w : K.World)
      → left from (K.process_vm_readv pid address size w).1 ≡ left from w
  pub malloc_left : (from size : ℕ) (w : K.World) → left from (K.malloc size w).1 ≡ left from w

-- The entries of lines. What a line leaves of the buffer of the path is there for the next.
unfoldable pub entries_in : Kernel → List (List ℕ) → List ℕ → List MapsEntry
entries_in K [] path = []
entries_in K (text ∷ lines) path =
    let e = scanned_entry (K.sscanf_maps text path) in e ∷ entries_in K lines e.path

unfoldable pub all_bytes : (ℕ → ℕ) → List MapsEntry → List ℕ
all_bytes memory [] = []
all_bytes memory (e ∷ es) = mapping_bytes memory e ++ all_bytes memory es

module _ (K : Kernel) (S : Streams K) (streams : HasStreams K S) (maps : HasMaps K)
    (left : ℕ → K.World → List (List ℕ)) (listed : HasListing K left) (pid file : ℕ) where
  chunk_bytes_left :
      (from readable a n : ℕ) (bytes : List ℕ) (w w' : K.World)
      → chunk_bytes K pid readable a n w ≡ returned bytes w'
      → left from w' ≡ left from w
  unfolding chunk_bytes
  chunk_bytes_left from readable a n bytes w w' h = elim (Bool-cases (readable == 0)) [
    | inl zeros ↦
        let e = rw (if◌then◌else◌, zeros) at h in let kept : w' ≡ w = cc in ap (left from) kept
    | inr can ↦
        let e = rw (if◌then◌else◌, can) at h in
        let kept : w' ≡ (K.process_vm_readv pid a n w).1 = cc in
        ap (left from) kept ∙ listed.readv_left from pid a n w
  ]

  dump_chunks_left :
      (from fuel readable a n : ℕ) (w w' : K.World)
      → dump_chunks K fuel pid file readable a n w ≡ returned tt w'
      → left from w' ≡ left from w
  unfolding dump_chunks
  dump_chunks_left from zero readable a n w w' h = cc
  dump_chunks_left from (suc fuel) readable a n w w' h = elim (Bool-cases (n == 0)) [
    | inl done ↦
        let e = rw (dump_chunks, done) at h in let same : w' ≡ w = cc in ap (left from) same
    | inr more ↦
        let e = rw (dump_chunks, more) at h in
        let chunk = if ltb buffer_size n then buffer_size else n in
        let (bytes, u, read, rest) = >>-eq_returned (chunk_bytes K pid readable a chunk w) _ e in
        let v = (K.fwrite file bytes u).1 in
        let (_, further) = fatal_if-eq_returned (not (K.fwrite file bytes u).0) v _ rest in
        dump_chunks_left from fuel readable _ (n - chunk) v w' further
        ∙ listed.fwrite_left from file bytes u
        ∙ chunk_bytes_left from readable a chunk bytes w u read
  ]

  pub dump_entry_left :
      (from : ℕ) (e : MapsEntry) (w w' : K.World)
      → dump_entry K pid file e w ≡ returned tt w'
      → left from w' ≡ left from w
  unfolding dump_entry
  dump_entry_left from e w w' h = elim (Bool-cases (is_special e.path)) [
    | inl special ↦
        let g = rw (if◌then◌else◌, special) at h in let same : w' ≡ w = cc in ap (left from) same
    | inr plain ↦
        let g = rw (if◌then◌else◌, plain) at h in
        let v = (K.fwrite file (maps_entry_bytes e) w).1 in
        let (_, rest) = fatal_if-eq_returned (not (K.fwrite file (maps_entry_bytes e) w).0) v _ g in
        dump_chunks_left from (suc (entry_size e)) e.read e.start (entry_size e) v w' rest
        ∙ listed.fwrite_left from file (maps_entry_bytes e) w
  ]

  -- What `next` gives: the end where no line is left, or the entry of the first line.
  pub record Gives (iter : MapsIter) (entry : Option MapsEntry) (w u : K.World) : Type 0 where
    pub contents_kept : S.contents file u ≡ S.contents file w
    pub which :
        ((entry ≡ none) × (left iter.file w ≡ []))
        ⊎ ((text : List ℕ) × (entry ≡ some (scanned_entry (K.sscanf_maps text iter.path)))
            × (left iter.file w ≡ text ∷ left iter.file u)
            × IsMapsEntry (scanned_entry (K.sscanf_maps text iter.path))
            × ((scanned_entry (K.sscanf_maps text iter.path)).start
                ≤ (scanned_entry (K.sscanf_maps text iter.path)).end))

  parsed_entry :
      (text path : List ℕ) (e : MapsEntry) (w w' : K.World)
      → parse_maps_str K text path w ≡ returned e w'
      → e ≡ scanned_entry (K.sscanf_maps text path)
  unfolding parse_maps_str
  parsed_entry text path e w w' h =
      let scan = K.sscanf_maps text path in
      let (_, rest) =
        fatal_if-eq_returned (ltb scan.count 4) w (λ _. pure (scanned_entry scan)) h in
      cc

  pub next_of-Gives :
      (iter : MapsIter) (got : Line) (entry : Option MapsEntry) (w u : K.World)
      → length iter.path ≡ max_path
      → (K.getline iter.file w).0 ≡ got
      → next_of K iter got (K.getline iter.file w).1 ≡ returned entry u
      → Gives iter entry w u
  unfolding next_of
  next_of-Gives iter (line text) entry w u size e h =
      let v = (K.getline iter.file w).1 in
      let (e', t, parse, rest) = >>-eq_returned (parse_maps_str K text iter.path v) _ h in
      let (kept, fits, ordered) =
        parsed K S streams maps pid file text iter.path e' v t size parse in
      let is_scanned = parsed_entry text iter.path e' v t parse in
      let same : u ≡ v = cc in
      let same_entry : entry ≡ some e' = cc in
      record {
        contents_kept = ap (S.contents file) same ∙ streams.getline_keeps file iter.file w;
        which = inr (
          text,
          same_entry ∙ ap some is_scanned,
          listed.getline_line iter.file text w e ∙ ap (λ z. text ∷ left iter.file z) (sym same),
          subst IsMapsEntry is_scanned fits,
          subst (λ (d : MapsEntry). d.start ≤ d.end) is_scanned ordered,
        );
      }
  next_of-Gives iter end_of_file entry w u size e h =
      let v = (K.getline iter.file w).1 in
      let (closed, rest) =
        fatal_if-eq_returned (not (K.fclose iter.file v).0) (K.fclose iter.file v).1 _ h in
      let same : u ≡ (K.fclose iter.file v).1 = cc in
      record {
        contents_kept =
            ap (S.contents file) same
            ∙ streams.fclose_keeps file iter.file v
            ∙ streams.getline_keeps file iter.file w;
        which = inl (cc, listed.getline_end iter.file w e);
      }
  next_of-Gives iter read_error entry w u size e h = cc
