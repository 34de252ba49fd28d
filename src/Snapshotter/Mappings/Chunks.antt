-- ===== src/Snapshotter/Mappings/Chunks.antt =====
-- What an entry adds to the file: its header and its chunks.
use process_bridge.Base.{
  ◌≡◌, ℕ, List, ◌++◌, [], returned, length, suc, Run, Option, ◌==◌, zero, Bool-cases, and_then,
  length-replicate, inl, fatal_if, some, if◌then◌else◌, arith, not, inr, fatal_if-eq_returned, ap,
  replicate, sym, ◌∙◌, none, append-nil, ltb, ◌≤◌, >>-eq_returned, ◌-◌, length-append, append_assoc,
  All, ◌∷◌,
}
use process_bridge.Snapshotter.Kernel.{Kernel, Streams, HasStreams}
use process_bridge.Snapshotter.Mappings.{
  chunk_bytes, dump_chunks, read_or_zeros, buffer_size, dump_entry, is_special, entry_size,
}
use process_bridge.Common.Snapshot.{sections_bytes, Section, IsSection}
use process_bridge.Common.MapsEntry.{MapsEntry, IsMapsEntry, maps_entry_bytes}

length-read_or_zeros :
    (chunk : ℕ) (result : Option (List ℕ)) → length (read_or_zeros chunk result) ≡ chunk
unfolding read_or_zeros
length-read_or_zeros chunk none = length-replicate {A = ℕ} chunk 0
length-read_or_zeros chunk (some bytes) = elim (Bool-cases (length bytes == chunk)) [
  | inl whole ↦ rw (if◌then◌else◌, whole) (ground arith)
  | inr short ↦ rw (if◌then◌else◌, short) (length-replicate {A = ℕ} chunk 0)
]

module _ (K : Kernel) (S : Streams K) (streams : HasStreams K S) (pid file : ℕ) where
  pub chunk_bytes_lem :
      (readable address chunk : ℕ) (bytes : List ℕ) (w w' : K.World)
      → chunk_bytes K pid readable address chunk w ≡ returned bytes w'
      → (length bytes ≡ chunk) × (S.contents file w' ≡ S.contents file w)
  unfolding chunk_bytes
  chunk_bytes_lem readable address chunk bytes w w' h = elim (Bool-cases (readable == 0)) [
    | inl zeros ↦
        let e = rw (if◌then◌else◌, zeros) at h in
        let same : replicate chunk 0 ≡ bytes = cc in
        let kept : w ≡ w' = cc in
        (rw (← same) (length-replicate {A = ℕ} chunk 0), ap (S.contents file) (sym kept))
    | inr readable ↦
        let e = rw (if◌then◌else◌, readable) at h in
        let result = (K.process_vm_readv pid address chunk w).0 in
        let same : read_or_zeros chunk result ≡ bytes = cc in
        let kept : (K.process_vm_readv pid address chunk w).1 ≡ w' = cc in
        (
          rw (← same) (length-read_or_zeros chunk result),
          ap (S.contents file) (sym kept) ∙ streams.readv_keeps file pid address chunk w,
        )
  ]

  -- A write that is checked adds its bytes.
  pub checked_write :
      (bytes : List ℕ) (w : K.World) (f : Unit {0} → Run K.World (Unit {0})) (w' : K.World)
      → and_then (fatal_if (not (K.fwrite file bytes w).0) (K.fwrite file bytes w).1) f
        ≡ returned tt w'
      → (u : K.World) × (S.contents file u ≡ S.contents file w ++ bytes) × (f tt u ≡ returned tt w')
  checked_write bytes w f w' h =
      let (ok, rest) = fatal_if-eq_returned _ (K.fwrite file bytes w).1 f h in
      ((K.fwrite file bytes w).1, streams.fwrite_adds file bytes w (ground arith), rest)

  dump_chunks_lem :
      (fuel readable address remaining : ℕ) (w w' : K.World)
      → dump_chunks K fuel pid file readable address remaining w ≡ returned tt w'
      → (content : List ℕ) × (length content ≡ remaining)
        × (S.contents file w' ≡ S.contents file w ++ content)
  unfolding dump_chunks
  dump_chunks_lem zero readable address remaining w w' h = cc
  dump_chunks_lem (suc fuel) readable address remaining w w' h =
      elim (Bool-cases (remaining == 0)) [
        | inl done ↦
            let e = rw (dump_chunks, done) at h in
            let same : w' ≡ w = cc in
            ([], ground arith, ap (S.contents file) same ∙ sym (append-nil (S.contents file w)))
        | inr more ↦
            let e = rw (dump_chunks, more) at h in
            let chunk = if ltb buffer_size remaining then buffer_size else remaining in
            let small : chunk ≤ remaining = ground arith in
            let (bytes, u, read, rest) =
              >>-eq_returned (chunk_bytes K pid readable address chunk w) _ e in
            let (size, kept) = chunk_bytes_lem readable address chunk bytes w u read in
            let (v, written, further) = checked_write bytes u _ w' rest in
            let (content, length_content, added) =
              dump_chunks_lem fuel readable _ (remaining - chunk) v w' further in
            (
              bytes ++ content,
              length-append bytes content ∙ omega (arith, size, length_content, small),
              added
                  ∙ ap (λ c. c ++ content) (written ∙ ap (λ c. c ++ bytes) kept)
                  ∙ append_assoc (S.contents file w) bytes content,
            )
      ]

  -- The sections that an entry adds to the file: none, or its own.
  pub dump_entry_lem :
      (e : MapsEntry) (w w' : K.World)
      → IsMapsEntry e
      → e.start ≤ e.end
      → dump_entry K pid file e w ≡ returned tt w'
      → (ss : List Section) × All IsSection ss
        × (S.contents file w' ≡ S.contents file w ++ sections_bytes ss)
  unfolding dump_entry sections_bytes
  dump_entry_lem e w w' fits ordered h = elim (Bool-cases (is_special e.path)) [
    | inl special ↦
        let g = rw (if◌then◌else◌, special) at h in
        let same : w' ≡ w = cc in
        ([], tt, ap (S.contents file) same ∙ sym (append-nil (S.contents file w)))
    | inr plain ↦
        let g = rw (if◌then◌else◌, plain) at h in
        let (u, written, rest) = checked_write (maps_entry_bytes e) w _ w' g in
        let (content, size, added) = dump_chunks_lem _ e.read e.start (entry_size e) u w' rest in
        let content_size : length content ≡ e.end - e.start =
          omega (arith, size, ordered, fits.end_fits) in
        let section : Section = record { entry = e; content = content } in
        (
          section ∷ [],
          (record { entry_fits = fits; ordered = ordered; content_size = content_size }, tt),
          added
              ∙ ap (λ c. c ++ content) written
              ∙ append_assoc (S.contents file w) (maps_entry_bytes e) content
              ∙ ap (λ c. S.contents file w ++ (maps_entry_bytes e ++ c)) (sym (append-nil content)),
        )
  ]
