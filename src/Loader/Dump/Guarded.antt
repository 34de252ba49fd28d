-- ===== src/Loader/Dump/Guarded.antt =====
-- The accesses of loader/src/dump.c to the file in memory: the same code, with a test of each of
-- them that ends in undefined behaviour where one byte of it is outside of the file.
use process_bridge.Base.{
  true, false, ℕ, List, ltb, Run, ◌+◌, ◌≤◌, out_of_fuel, length, zero, if◌then◌else◌, ◌-◌, ◌≡◌, suc,
  leb, ◌||◌, fatal, arith, pure, some, none, returned, take, Bool-cases, ◌>>=◌, drop, inl, ub, inr,
  ap, ◌>>◌, refl,
}
use process_bridge.Loader.Host.{Host}
use process_bridge.Loader.Dump.{read_bytes, mapping_size, load_mapping}
use process_bridge.Common.MapsEntry.{sizeof_maps_entry, maps_entry_of}

-- The `size` bytes at `offset` of an array.
unfoldable pub slice : {W : Type 0} → List ℕ → ℕ → ℕ → Run W (List ℕ)
slice data_bytes offset size =
    if leb (offset + size) (length data_bytes)
    then pure (take size (drop offset data_bytes))
    else ub

-- `read_bytes`, where a return of -1 is followed by `LOG_FATAL`, and then the bytes from `offset`
-- on are given to `k`.
unfoldable pub read_guarded : {W B : Type 0} → List ℕ → ℕ → ℕ → ℕ → (List ℕ × ℕ → Run W B) → Run W B
read_guarded data_bytes file_size offset size k =
    if ltb file_size offset || ltb (file_size - offset) size
    then fatal
    else (do bytes ← slice data_bytes offset size; k (bytes, offset + size))

module _ (H : Host) (uc : ℕ) where
  unfoldable pub load_guarded : ℕ → List ℕ → ℕ → ℕ → ℕ → Run H.World ℕ
  load_guarded zero data_bytes file_size offset loaded = λ w. out_of_fuel
  load_guarded (suc fuel) data_bytes file_size offset loaded = elim (ltb offset file_size) [
    | false ↦ pure loaded
    | true ↦ read_guarded data_bytes file_size offset sizeof_maps_entry λ (header, behind).
        let size = mapping_size (maps_entry_of header) in
        elim (ltb (file_size - behind) size) [
          | true ↦ fatal
          | false ↦ do
            content ← slice data_bytes behind size
            load_mapping H uc (maps_entry_of header) content
            load_guarded fuel data_bytes file_size (behind + size) (loaded + 1)
        ]
  ]

pub slice_inside :
    {W : Type 0} (data_bytes : List ℕ) (offset size : ℕ) (w : W)
    → offset + size ≤ length data_bytes
    → slice data_bytes offset size w ≡ returned (take size (drop offset data_bytes)) w
unfolding slice
slice_inside data_bytes offset size w h =
    let inner : leb (offset + size) (length data_bytes) ≡ true = ground arith in
    rw (if◌then◌else◌, inner) refl

pub within : (n b size : ℕ) → ltb (n - b) size ≡ false → b ≤ n → b + size ≤ n
within n b size h le = ground arith

-- A read that is not refused lies in the file.
pub read_guarded-some :
    {W B : Type 0} (data_bytes : List ℕ) (offset size : ℕ) (bytes : List ℕ) (behind : ℕ)
    (k : List ℕ × ℕ → Run W B) (w : W)
    → read_bytes data_bytes (length data_bytes) offset size ≡ some (bytes, behind)
    → read_guarded data_bytes (length data_bytes) offset size k w ≡ k (bytes, behind) w
unfolding read_guarded read_bytes
read_guarded-some data_bytes offset size bytes behind k w h =
    elim (Bool-cases (ltb (length data_bytes) offset || ltb (length data_bytes - offset) size)) [
      | inl short ↦ cc (rw (if◌then◌else◌, short) at h)
      | inr enough ↦
          let inner : offset + size ≤ length data_bytes = ground arith in
          let same : (take size (drop offset data_bytes), offset + size) ≡ (bytes, behind) =
            cc (rw (if◌then◌else◌, enough) at h) in
          rw (if◌then◌else◌, enough)
            (rw (slice_inside data_bytes offset size w inner) (ap (λ r. k r w) same))
    ]

pub read_guarded-none :
    {W B : Type 0} (data_bytes : List ℕ) (offset size : ℕ) (k : List ℕ × ℕ → Run W B) (w : W)
    → read_bytes data_bytes (length data_bytes) offset size ≡ none
    → read_guarded data_bytes (length data_bytes) offset size k w ≡ fatal w
unfolding read_guarded read_bytes
read_guarded-none data_bytes offset size k w h =
    elim (Bool-cases (ltb (length data_bytes) offset || ltb (length data_bytes - offset) size)) [
      | inl short ↦ rw (if◌then◌else◌, short) refl
      | inr enough ↦ cc (rw (if◌then◌else◌, enough) at h)
    ]
