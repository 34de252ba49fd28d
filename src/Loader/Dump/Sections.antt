-- ===== src/Loader/Dump/Sections.antt =====
-- The loop over the mappings, on a file that holds well-formed sections.
use native.Mathlib.Nat.{add-zero}
use process_bridge.Base.{
  ◌≡◌, refl, ℕ, List, ◌<◌, length, ◌+◌, none, ◌≤◌, ◌++◌, Run, some, arith, pure, ◌∷◌, length-append,
  take, drop-append_of_eq, drop, ◌>>◌, take-append_of_eq, length-take, ◌∙◌, length-drop, [], suc,
  ltb, true, lt→ltb, append_assoc, All, take-append, ◌-◌, zero, false, ap, append-nil, sym,
  >>_assoc,
}
use process_bridge.Loader.Host.{Host}
use process_bridge.Loader.Dump.{read_bytes, load_mapping, load_mappings, mapping_size}
use process_bridge.Common.Snapshot.{Section, IsSection, sections_bytes}
use process_bridge.Common.MapsEntry.{
  maps_entry_bytes, sizeof_maps_entry, length-maps_entry_bytes, maps_entry_of,
  maps_entry_of-maps_entry_bytes,
}

-- Exactly the reads inside of the file are made; each gives that many bytes and moves the offset.
pub read_bytes_within :
    (data_bytes : List ℕ) (offset size : ℕ)
    → offset + size ≤ length data_bytes
    → (bytes : List ℕ) × (read_bytes data_bytes (length data_bytes) offset size
        ≡ some (bytes, offset + size))
      × (length bytes ≡ size)
      × (bytes ≡ take size (drop offset data_bytes))
unfolding read_bytes
read_bytes_within data_bytes offset size h = (
  take size (drop offset data_bytes),
  ground arith,
  length-take size (drop offset data_bytes) ∙ omega (arith, length-drop offset data_bytes),
  refl,
)

pub read_bytes_beyond :
    (data_bytes : List ℕ) (file_size offset size : ℕ)
    → file_size < offset + size
    → read_bytes data_bytes file_size offset size ≡ none
unfolding read_bytes
read_bytes_beyond data_bytes file_size offset size h = ground arith

-- Where the bytes at the offset are known, a read gives them.
pub read_bytes-append :
    (front bytes back : List ℕ) (size : ℕ)
    → length bytes ≡ size
    → read_bytes (front ++ (bytes ++ back)) (length (front ++ (bytes ++ back))) (length front) size
      ≡ some (bytes, length front + size)
unfolding read_bytes
read_bytes-append front bytes back size h =
    let total = length-append front (bytes ++ back) in
    let rest = length-append bytes back in
    rw
      (
        drop-append_of_eq (length front) front (bytes ++ back) refl,
        take-append_of_eq size bytes back h,
      )
      (ground (arith, total, rest))

module _ (H : Host) (uc : ℕ) where
  -- The sections, loaded one after the other.
  unfoldable pub load_sections : List Section → Run H.World (Unit {0})
  load_sections [] = pure tt
  load_sections (s ∷ ss) = do load_mapping H uc s.entry s.content; load_sections ss

pub mapping_size_lem : (s : Section) → IsSection s → mapping_size s.entry ≡ length s.content
unfolding mapping_size
mapping_size_lem s h = omega (arith, h.content_size, h.ordered, h.entry_fits.end_fits)

-- The content behind a header.
content_at :
    (front header content back : List ℕ) (offset : ℕ)
    → length front + length header ≡ offset
    → take (length content) (drop offset (front ++ (header ++ (content ++ back)))) ≡ content
content_at front header content back offset h =
    let behind : length (front ++ header) ≡ offset = length-append front header ∙ h in
    rw
      (
        ← append_assoc front header (content ++ back),
        drop-append_of_eq offset (front ++ header) (content ++ back) behind,
      )
      (take-append content back)

loaded_count : (loaded n : ℕ) → loaded + 1 + n ≡ loaded + suc n
loaded_count loaded n = omega arith

load_mappings_done :
    (H : Host) (uc fuel : ℕ) (data_bytes : List ℕ) (loaded : ℕ)
    → load_mappings H (suc fuel) uc data_bytes (length data_bytes) (length data_bytes) loaded
      ≡ pure loaded
unfolding load_mappings
load_mappings_done H uc fuel data_bytes loaded =
    let done : ltb (length data_bytes) (length data_bytes) ≡ false = ground arith in
    rw (load_mappings, done)

module _ (H : Host) (uc : ℕ) where
  -- One round, at a section of the file.
  load_mappings_step :
      (fuel : ℕ) (front : List ℕ) (s : Section) (back : List ℕ) (loaded : ℕ)
      → IsSection s
      → let data_bytes = front ++ (maps_entry_bytes s.entry ++ (s.content ++ back)) in
        load_mappings H (suc fuel) uc data_bytes (length data_bytes) (length front) loaded ≡ (
          load_mapping H uc s.entry s.content
          >> load_mappings H fuel uc data_bytes
              (length data_bytes)
              (length front + sizeof_maps_entry + length s.content)
              (loaded + 1))
  unfolding load_mappings
  load_mappings_step fuel front s back loaded h =
      let header = maps_entry_bytes s.entry in
      let header_size = length-maps_entry_bytes s.entry h.entry_fits in
      let data_bytes = front ++ (header ++ (s.content ++ back)) in
      let total = length-append front (header ++ (s.content ++ back)) in
      let rest = length-append header (s.content ++ back) in
      let more : ltb (length front) (length data_bytes) ≡ true =
        lt→ltb _ _ (omega (arith, total, rest, header_size)) in
      let same : maps_entry_of header ≡ s.entry =
        maps_entry_of-maps_entry_bytes s.entry h.entry_fits in
      let content_size : mapping_size s.entry ≡ length s.content = mapping_size_lem s h in
      let content_offset : ℕ = length front + sizeof_maps_entry in
      let fits : ltb (length data_bytes - content_offset) (mapping_size (maps_entry_of header))
          ≡ false =
        rw (same, content_size)
          (ground (arith, total, rest, header_size, length-append s.content back)) in
      let reads : take (length s.content) (drop content_offset data_bytes) ≡ s.content =
        content_at front header s.content back content_offset
          (ap (λ (n : ℕ). length front + n) header_size) in
      rw
        (
          load_mappings,
          more,
          read_bytes-append front header (s.content ++ back) sizeof_maps_entry header_size,
        )
        (rw (fits, same, content_size, reads) refl)

  -- At the end of any front part, the loop over well-formed sections loads exactly them, each once
  -- and in their order, and counts them, if it has more rounds than there are sections.
  pub load_mappings-sections :
      (ss : List Section) (fuel : ℕ) (front : List ℕ) (loaded : ℕ)
      → All IsSection ss
      → length ss < fuel
      → let data_bytes = front ++ sections_bytes ss in
        load_mappings H fuel uc data_bytes (length data_bytes) (length front) loaded
        ≡ (load_sections H uc ss >> pure (loaded + length ss))
  unfolding sections_bytes load_sections
  load_mappings-sections ss zero front loaded h lt = absurd (omega arith)
  load_mappings-sections [] (suc fuel) front loaded h lt =
      rw (append-nil, add-zero) (load_mappings_done H uc fuel front loaded)
  load_mappings-sections (s ∷ ss) (suc fuel) front loaded h lt =
      let header = maps_entry_bytes s.entry in
      let back = sections_bytes ss in
      let front' = front ++ (header ++ s.content) in
      let moved : length front + sizeof_maps_entry + length s.content ≡ length front' = omega (
        arith,
        length-append front (header ++ s.content),
        length-append header s.content,
        length-maps_entry_bytes s.entry h.0.entry_fits,
      ) in
      let same : front ++ (header ++ (s.content ++ back)) ≡ front' ++ back =
        rw (append_assoc front (header ++ s.content) back, append_assoc header s.content back) in
      load_mappings_step fuel front s back loaded h.0
      ∙ rw (moved, same)
          (ap (λ k. load_mapping H uc s.entry s.content >> k)
            (load_mappings-sections ss fuel front' (loaded + 1) h.1 (omega arith)
              ∙ rw (loaded_count loaded (length ss))))
      ∙ sym (
          >>_assoc (load_mapping H uc s.entry s.content) (load_sections H uc ss)
            (pure (loaded + suc (length ss))))
