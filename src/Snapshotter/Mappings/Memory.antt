-- ===== src/Snapshotter/Mappings/Memory.antt =====
-- What is written of a mapping, by the memory of the process.
use process_bridge.Base.{
  [], ℕ, replicate, ◌<◌, ◌≤◌, List, ◌++◌, length, ◌≡◌, suc, ◌+◌, ◌^◌, some, if◌then◌else◌,
  Bool-cases, returned, ap, arith, ◌∷◌, ◌==◌, inl, sym, ◌-◌, zero, inr, ◌∙◌, refl, append-nil, ltb,
  append_assoc, >>-eq_returned, ◌%◌, true, ==_iff, false, ◌≢◌,
}
use process_bridge.Snapshotter.Kernel.{Kernel, Streams, HasStreams}
use process_bridge.Snapshotter.Mappings.{
  chunk_bytes, dump_chunks, read_or_zeros, buffer_size, dump_entry, is_special, entry_size,
}
use process_bridge.Snapshotter.Mappings.Chunks.{checked_write, chunk_bytes_lem}
use process_bridge.Common.MapsEntry.{MapsEntry, IsMapsEntry, maps_entry_bytes}

-- The bytes of a memory from an address on.
unfoldable pub bytes_from : (ℕ → ℕ) → ℕ → ℕ → List ℕ
bytes_from memory address zero = []
bytes_from memory address (suc n) = memory address ∷ bytes_from memory (address + 1) n

-- A range of a mapping as it is to be written: zeros if the mapping cannot be read.
unfoldable pub range_bytes : (ℕ → ℕ) → ℕ → ℕ → ℕ → List ℕ
range_bytes memory readable address n =
    if readable == 0 then replicate n 0 else bytes_from memory address n

-- The section of a mapping, and nothing for the mappings of the kernel.
unfoldable pub mapping_bytes : (ℕ → ℕ) → MapsEntry → List ℕ
mapping_bytes memory e =
    if is_special e.path
    then []
    else maps_entry_bytes e ++ range_bytes memory e.read e.start (e.end - e.start)

pub length-bytes_from : (memory : ℕ → ℕ) (a n : ℕ) → length (bytes_from memory a n) ≡ n
unfolding bytes_from
length-bytes_from memory a zero = refl
length-bytes_from memory a (suc n) = ap suc (length-bytes_from memory (a + 1) n)

read_or_zeros_whole :
    (n : ℕ) (bytes : List ℕ) → length bytes ≡ n → read_or_zeros n (some bytes) ≡ bytes
unfolding read_or_zeros
read_or_zeros_whole n bytes h =
    let whole : (length bytes == n) ≡ true = (==_iff (length bytes) n).1 h in
    rw (if◌then◌else◌, whole) refl

range_bytes-zero : (memory : ℕ → ℕ) (readable a : ℕ) → range_bytes memory readable a 0 ≡ []
unfolding range_bytes bytes_from
range_bytes-zero memory readable a = elim (Bool-cases (readable == 0)) [
  | inl zeros ↦ rw (if◌then◌else◌, zeros) refl
  | inr reads ↦ rw (if◌then◌else◌, reads) refl
]

bytes_from-append :
    (memory : ℕ → ℕ) (a n m : ℕ)
    → bytes_from memory a n ++ bytes_from memory (a + n) m ≡ bytes_from memory a (n + m)
unfolding bytes_from
bytes_from-append memory a zero m =
    let e : a + 0 ≡ a = omega arith in
    let f : 0 + m ≡ m = omega arith in λ i. bytes_from memory (e i) (sym f i)
bytes_from-append memory a (suc n) m =
    let e : a + suc n ≡ a + 1 + n = omega arith in
    let f : suc n + m ≡ suc (n + m) = omega arith in
    rw (e, f) (ap (λ bs. memory a ∷ bs) (bytes_from-append memory (a + 1) n m))

replicate-append : (v n m : ℕ) → replicate n v ++ replicate m v ≡ replicate (n + m) v
replicate-append v zero m = let f : 0 + m ≡ m = omega arith in ap (λ k. replicate k v) (sym f)
replicate-append v (suc n) m =
    let f : suc n + m ≡ suc (n + m) = omega arith in
    rw (f) (ap (λ bs. v ∷ bs) (replicate-append v n m))

range_bytes-append :
    (memory : ℕ → ℕ) (readable a n m : ℕ)
    → range_bytes memory readable a n ++ range_bytes memory readable (a + n) m
      ≡ range_bytes memory readable a (n + m)
unfolding range_bytes
range_bytes-append memory readable a n m = elim (Bool-cases (readable == 0)) [
  | inl zeros ↦ rw (if◌then◌else◌, zeros) (replicate-append 0 n m)
  | inr reads ↦ rw (if◌then◌else◌, reads) (bytes_from-append memory a n m)
]

module _ (K : Kernel) (pid : ℕ) (memory : ℕ → ℕ) where
  -- Every read of a range that can be read succeeds.
  abbrev pub Reads : ℕ → ℕ → ℕ → Type 0
  Reads readable start end =
      (a n : ℕ) (w : K.World)
      → readable ≢ 0
      → start ≤ a
      → a + n ≤ end
      → (K.process_vm_readv pid a n w).0 ≡ some (bytes_from memory a n)

  -- So it is inside of a mapping, unless it is one of the kernel.
  abbrev pub CanRead : MapsEntry → Type 0
  CanRead e = is_special e.path ≡ false → Reads e.read e.start e.end

module _ (K : Kernel) (S : Streams K) (streams : HasStreams K S) (pid file : ℕ)
    (memory : ℕ → ℕ) where
  chunk_bytes-range_bytes :
      (readable a n start end : ℕ) (bytes : List ℕ) (w w' : K.World)
      → Reads K pid memory readable start end
      → start ≤ a
      → a + n ≤ end
      → chunk_bytes K pid readable a n w ≡ returned bytes w'
      → bytes ≡ range_bytes memory readable a n
  unfolding chunk_bytes range_bytes
  chunk_bytes-range_bytes readable a n start end bytes w w' reads low high h =
      elim (Bool-cases (readable == 0)) [
        | inl zeros ↦
            let e = rw (if◌then◌else◌, zeros) at h in
            let same : bytes ≡ replicate n 0 = cc in rw (if◌then◌else◌, zeros) same
        | inr can ↦
            let nonzero : readable ≢ 0 = λ zero_flag. ground (arith, can, zero_flag) in
            let e = rw (if◌then◌else◌, can) at h in
            let same : bytes ≡ read_or_zeros n (K.process_vm_readv pid a n w).0 = cc in
            let whole =
              read_or_zeros_whole n (bytes_from memory a n) (length-bytes_from memory a n) in
            rw (if◌then◌else◌, can)
              (same ∙ ap (read_or_zeros n) (reads a n w nonzero low high) ∙ whole)
      ]

  dump_chunks-range_bytes :
      (fuel readable a n start end : ℕ) (w w' : K.World)
      → Reads K pid memory readable start end
      → end < 2 ^ 64
      → start ≤ a
      → a + n ≤ end
      → dump_chunks K fuel pid file readable a n w ≡ returned tt w'
      → S.contents file w' ≡ S.contents file w ++ range_bytes memory readable a n
  unfolding dump_chunks
  dump_chunks-range_bytes zero readable a n start end w w' reads fits low high h = cc
  dump_chunks-range_bytes (suc fuel) readable a n start end w w' reads fits low high h =
      elim (Bool-cases (n == 0)) [
        | inl done ↦
            let e = rw (dump_chunks, done) at h in
            let same : w' ≡ w = cc in
            let none_left : n ≡ 0 = ground arith in
            ap (S.contents file) same
            ∙ sym (append-nil (S.contents file w))
            ∙ ap (λ c. S.contents file w ++ c)
                (sym (range_bytes-zero memory readable a)
                  ∙ ap (range_bytes memory readable a) (sym none_left))
        | inr more ↦
            let e = rw (dump_chunks, more) at h in
            let chunk = if ltb buffer_size n then buffer_size else n in
            let small : chunk ≤ n = ground arith in
            let (bytes, u, read, rest) =
              >>-eq_returned (chunk_bytes K pid readable a chunk w) _ e in
            let (_, kept) = chunk_bytes_lem K S streams pid file readable a chunk bytes w u read in
            let (v, written, further) = checked_write K S streams pid file bytes u _ w' rest in
            let same =
              chunk_bytes-range_bytes readable a chunk start end bytes w u reads low
                (omega (arith, small, high)) read in
            let next_address : (a + chunk) % 2 ^ 64 ≡ a + chunk =
              omega (arith, small, high, fits) in
            let added =
              dump_chunks-range_bytes fuel readable (a + chunk) (n - chunk) start end v w' reads
                fits (omega arith) (omega (arith, small, high)) (rw next_address at further) in
            let total : chunk + (n - chunk) ≡ n = omega (arith, small) in
            added
            ∙ ap (λ c. c ++ range_bytes memory readable (a + chunk) (n - chunk))
                (written ∙ (λ i. kept i ++ same i))
            ∙ append_assoc (S.contents file w) (range_bytes memory readable a chunk) _
            ∙ ap (λ c. S.contents file w ++ c)
                (range_bytes-append memory readable a chunk (n - chunk)
                  ∙ ap (range_bytes memory readable a) total)
      ]

  -- Where every read inside of a mapping succeeds, what `dump_entry` adds to the file, if it
  -- returns, is the header of the mapping and the bytes of the memory of the process from its start
  -- to its end, zeros in their place if the mapping cannot be read, and nothing at all for
  -- [vvar], [vsyscall] and [vvar_vclock].
  pub dump_entry-mapping_bytes :
      (e : MapsEntry) (w w' : K.World)
      → IsMapsEntry e
      → e.start ≤ e.end
      → CanRead K pid memory e
      → dump_entry K pid file e w ≡ returned tt w'
      → S.contents file w' ≡ S.contents file w ++ mapping_bytes memory e
  unfolding dump_entry mapping_bytes
  dump_entry-mapping_bytes e w w' fits ordered reads h = elim (Bool-cases (is_special e.path)) [
    | inl special ↦
        let g = rw (if◌then◌else◌, special) at h in
        let same : w' ≡ w = cc in
        rw (if◌then◌else◌, special)
          (ap (S.contents file) same ∙ sym (append-nil (S.contents file w)))
    | inr plain ↦
        let g = rw (if◌then◌else◌, plain) at h in
        let (u, written, rest) = checked_write K S streams pid file (maps_entry_bytes e) w _ w' g in
        let size : entry_size e ≡ e.end - e.start = omega (arith, ordered, fits.end_fits) in
        let added =
          dump_chunks-range_bytes (suc (entry_size e)) e.read e.start (entry_size e) e.start e.end u
            w' (reads plain) (omega (arith, fits.end_fits)) (omega arith)
            (omega (arith, size, ordered)) rest in
        rw (if◌then◌else◌, plain)
          (added
            ∙ (λ i. written i ++ range_bytes memory e.read e.start (size i))
            ∙ append_assoc (S.contents file w) (maps_entry_bytes e) _)
  ]
