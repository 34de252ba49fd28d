-- ===== src/Snapshotter/Mappings/I386/Narrow.antt =====
-- The i386 build writes the mappings of a 32-bit process as the x86_64 build does.
use process_bridge.Base.{
  ◌>>=◌, ◌>>◌, call, or_fatal, fatal_if, not, ℕ, zero, suc, Run, Outcome, List, ◌≡◌, refl, ap,
  fun_ext, and_then, Bool-cases, inl, inr, ltb, ◌==◌, if◌then◌else◌, ◌+◌, ◌-◌, ◌%◌, ◌^◌, ◌<◌, ◌≤◌,
  arith,
}
use process_bridge.Snapshotter.Kernel.{Kernel, Line, line, end_of_file, read_error}
use process_bridge.Snapshotter.Maps.{
  create_maps_iter, MapsIter, next, next_of, parse_maps_str, scanned_entry,
}
use process_bridge.Common.MapsEntry.{MapsEntry}
use process_bridge.Snapshotter.Mappings.{
  buffer_size, chunk_bytes, is_special, dump_chunks, dump_entry, dump_entries,
  dump_mappings_content, write_snapshot, entry_size,
}
use process_bridge.Snapshotter.Mappings.I386.{
  dump_chunks32, dump_entry32, dump_entries32, dump_mappings_content32, write_snapshot32,
  entry_size32,
}

-- What the kernel says of a 32-bit process: the addresses of a mapping are in their order, and have
-- 32 bits.
pub record HasMaps32 (K : Kernel) : Type 0 where
  pub ordered :
      (text path : List ℕ)
      → 4 ≤ (K.sscanf_maps text path).count
      → (K.sscanf_maps text path).start ≤ (K.sscanf_maps text path).end
  pub narrow :
      (text path : List ℕ)
      → 4 ≤ (K.sscanf_maps text path).count
      → (K.sscanf_maps text path).end < 2 ^ 32

-- Two runs that go on alike.
same_rest :
    {W A B : Type 0} (o : Outcome W A) (f g : A → Run W B)
    → ((a : A) (w : W) → f a w ≡ g a w)
    → and_then o f ≡ and_then o g
same_rest o f g h = ap (and_then o) (fun_ext λ a. fun_ext λ w. h a w)

module _ (K : Kernel) where
  dump_chunks32-eq :
      (fuel pid file readable a n : ℕ) (w : K.World)
      → a + n < 2 ^ 32
      → dump_chunks32 K fuel pid file readable a n w ≡ dump_chunks K fuel pid file readable a n w
  unfolding dump_chunks dump_chunks32
  dump_chunks32-eq zero pid file readable a n w h = refl
  dump_chunks32-eq (suc fuel) pid file readable a n w h = elim (Bool-cases (n == 0)) [
    | inl done ↦ rw (dump_chunks, dump_chunks32, done) refl
    | inr more ↦
        let chunk = if ltb buffer_size n then buffer_size else n in
        let small : chunk ≤ n = ground arith in
        let wrap32 : (a + chunk) % 2 ^ 32 ≡ a + chunk = omega (arith, small, h) in
        let wrap64 : (a + chunk) % 2 ^ 64 ≡ a + chunk = omega (arith, small, h) in
        rw (dump_chunks, dump_chunks32, more, wrap32, wrap64)
          (same_rest (chunk_bytes K pid readable a chunk w) _ _ λ bytes u. same_rest _ _ _ λ _ v.
            dump_chunks32-eq fuel pid file readable (a + chunk) (n - chunk) v
              (omega (arith, small, h)))
  ]

  dump_entry32-eq :
      (pid file : ℕ) (e : MapsEntry) (w : K.World)
      → e.start ≤ e.end
      → e.end < 2 ^ 32
      → dump_entry32 K pid file e w ≡ dump_entry K pid file e w
  unfolding dump_entry dump_entry32
  dump_entry32-eq pid file e w ordered narrow = elim (Bool-cases (is_special e.path)) [
    | inl special ↦ rw (if◌then◌else◌, special) refl
    | inr plain ↦
        let size : entry_size32 e ≡ entry_size e = omega (arith, ordered, narrow) in
        let sum : e.start + entry_size e < 2 ^ 32 = omega (arith, ordered, narrow) in
        let start : e.start % 2 ^ 32 ≡ e.start = omega (arith, ordered, narrow) in
        rw (if◌then◌else◌, plain, size, start)
          (same_rest _ _ _ λ _ v.
            dump_chunks32-eq (suc (entry_size e)) pid file e.read e.start (entry_size e) v sum)
  ]

  module _ (maps : HasMaps32 K) where
    dump_entries32-eq :
        (fuel pid file : ℕ) (iter : MapsIter) (w : K.World)
        → dump_entries32 K fuel pid file iter w ≡ dump_entries K fuel pid file iter w
    unfolding dump_entries dump_entries32 next next_of parse_maps_str scanned_entry
    dump_entries32-eq zero pid file iter w = refl
    dump_entries32-eq (suc fuel) pid file iter w =
        go (λ more v. dump_entries32-eq fuel pid file more v) (K.getline iter.file w).0 refl
      where
        go :
            ((more : MapsIter) (v : K.World)
              → dump_entries32 K fuel pid file more v ≡ dump_entries K fuel pid file more v)
            → (got : Line) → (K.getline iter.file w).0 ≡ got
            → dump_entries32 K (suc fuel) pid file iter w
              ≡ dump_entries K (suc fuel) pid file iter w
        go later (line text) e =
            let u = (K.getline iter.file w).1 in
            let entry = scanned_entry (K.sscanf_maps text iter.path) in
            let more : MapsIter = record { file = iter.file; path = entry.path } in
            elim (Bool-cases (ltb (K.sscanf_maps text iter.path).count 4)) [
              | inl short ↦ rw (e, short) refl
              | inr enough ↦
                  let four : 4 ≤ (K.sscanf_maps text iter.path).count = ground arith in
                  let same =
                    dump_entry32-eq pid file entry u (maps.ordered text iter.path four)
                      (maps.narrow text iter.path four) in
                  rw (e, enough) (λ i. and_then (same i) (λ _ v. later more v i))
            ]
        go later end_of_file e =
            elim (Bool-cases (K.fclose iter.file (K.getline iter.file w).1).0) [
              | inl closed ↦ rw (e, closed) refl
              | inr failed ↦ rw (e, failed) refl
            ]
        go later read_error e = rw (e) refl

    -- On a kernel that gives 32-bit addresses, the two builds write the same.
    pub write_snapshot32-eq :
        (fuel : ℕ) (state : List ℕ) (pid : ℕ) (filename : List ℕ) (w : K.World)
        → write_snapshot32 K fuel state pid filename w ≡ write_snapshot K fuel state pid filename w
    unfolding write_snapshot write_snapshot32 dump_mappings_content dump_mappings_content32
    write_snapshot32-eq fuel state pid filename w = λ i.
        (do
          file ← or_fatal (K.fopen_wb filename)
          written ← call (K.fwrite file state)
          fatal_if (not written)
          do
            iter ← create_maps_iter K pid
            allocated ← call (K.malloc buffer_size)
            fatal_if (not allocated)
            λ v. dump_entries32-eq fuel pid file iter v i
            flushed ← call (K.fflush file)
            fatal_if (not flushed)
          closed ← call (K.fclose file)
          fatal_if (not closed))
          w
