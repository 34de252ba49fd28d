-- ===== src/Snapshotter/Mappings/Termination.antt =====
-- The loops of the snapshotter end.
use process_bridge.Base.{
  refl, out_of_fuel, ◌≡◌, ℕ, returned, Outcome, Ends, Bool, Run, ◌≤◌, ◌<◌, arith, inl, Bool-cases,
  fatal_if, and_then, exited, suc, ◌==◌, true, if◌then◌else◌, inr, undefined, zero, false,
  replicate, ltb, not, ◌-◌,
}
use process_bridge.Common.MapsEntry.{MapsEntry, maps_entry_bytes}
use process_bridge.Snapshotter.Kernel.{
  Kernel, Streams, HasLines, Line, line, end_of_file, read_error,
}
use process_bridge.Snapshotter.Maps.{MapsIter, next_of, parse_maps_str, next, scanned_entry}
use process_bridge.Snapshotter.Mappings.{
  chunk_bytes, dump_chunks, dump_entry, dump_entries, buffer_size, entry_size, is_special,
}

module _ (K : Kernel) (S : Streams K) (lines : HasLines K S) (from : ℕ) where
  -- The run ends, and where it returns at most `n` lines are left.
  record Quiet {A : Type 0} (n : ℕ) (o : Outcome K.World A) : Type 0 where
    ends : Ends o
    left : (a : A) (w' : K.World) → o ≡ returned a w' → S.lines_left from w' ≤ n

  and_then-Quiet :
      {A B : Type 0} (n : ℕ) (o : Outcome K.World A) (f : A → Run K.World B)
      → Quiet n o
      → ((a : A) (v : K.World) → S.lines_left from v ≤ n → Quiet n (f a v))
      → Quiet n (and_then o f)
  and_then-Quiet n (returned a w) f h k = k a w (h.left a w refl)
  and_then-Quiet n (exited c w) f h k = record { ends = tt; left = λ a v e. cc }
  and_then-Quiet n undefined f h k = record { ends = tt; left = λ a v e. cc }
  and_then-Quiet n out_of_fuel f h k = absurd h.ends

  and_then-Ends-Quiet :
      {A B : Type 0} (n : ℕ) (o : Outcome K.World A) (f : A → Run K.World B)
      → Quiet n o
      → ((a : A) (v : K.World) → S.lines_left from v ≤ n → Ends (f a v))
      → Ends (and_then o f)
  and_then-Ends-Quiet n (returned a w) f h k = k a w (h.left a w refl)
  and_then-Ends-Quiet n (exited c w) f h k = tt
  and_then-Ends-Quiet n undefined f h k = tt
  and_then-Ends-Quiet n out_of_fuel f h k = h.ends

  returned-Quiet :
      {A : Type 0} (n : ℕ) (a : A) (w : K.World) → S.lines_left from w ≤ n → Quiet n (returned a w)
  returned-Quiet n a w h = record {
    ends = tt;
    left = λ b w' e. let same : w ≡ w' = cc in rw (← same) h;
  }

  fatal_if-Quiet :
      (n : ℕ) (b : Bool) (w : K.World) → S.lines_left from w ≤ n → Quiet n (fatal_if b w)
  fatal_if-Quiet n true w h = record { ends = tt; left = λ a v e. cc }
  fatal_if-Quiet n false w h = returned-Quiet n tt w h

  chunk_bytes-Quiet :
      (n pid readable address chunk : ℕ) (w : K.World)
      → S.lines_left from w ≤ n
      → Quiet n (chunk_bytes K pid readable address chunk w)
  unfolding chunk_bytes
  chunk_bytes-Quiet n pid readable address chunk w h = elim (Bool-cases (readable == 0)) [
    | inl zeros ↦ rw (if◌then◌else◌, zeros) (returned-Quiet n (replicate chunk 0) w h)
    | inr readable ↦
        rw (if◌then◌else◌, readable)
          (returned-Quiet n _ _ (omega (arith, h, lines.readv_lines from pid address chunk w)))
  ]

  dump_chunks-Quiet :
      (n fuel pid file readable address remaining : ℕ) (w : K.World)
      → remaining < fuel
      → S.lines_left from w ≤ n
      → Quiet n (dump_chunks K fuel pid file readable address remaining w)
  unfolding dump_chunks
  dump_chunks-Quiet n zero pid file readable address remaining w lt h = absurd (omega arith)
  dump_chunks-Quiet n (suc fuel) pid file readable address remaining w lt h =
      elim (Bool-cases (remaining == 0)) [
        | inl done ↦ rw (dump_chunks, done) (returned-Quiet n tt w h)
        | inr more ↦
            let chunk = if ltb buffer_size remaining then buffer_size else remaining in
            let shorter : remaining - chunk < fuel = ground arith in
            rw (dump_chunks, more)
              (and_then-Quiet n (chunk_bytes K pid readable address chunk w) _
                (chunk_bytes-Quiet n pid readable address chunk w h)
                λ bytes u few.
                  let fewer : S.lines_left from (K.fwrite file bytes u).1 ≤ n =
                    omega (arith, few, lines.fwrite_lines from file bytes u) in
                  and_then-Quiet n
                    (fatal_if (not (K.fwrite file bytes u).0) (K.fwrite file bytes u).1) _
                    (fatal_if-Quiet n _ _ fewer)
                    λ _ v less.
                      dump_chunks-Quiet n fuel pid file readable _ (remaining - chunk) v shorter
                        less)
      ]

  dump_entry-Quiet :
      (n pid file : ℕ) (e : MapsEntry) (w : K.World)
      → S.lines_left from w ≤ n
      → Quiet n (dump_entry K pid file e w)
  unfolding dump_entry
  dump_entry-Quiet n pid file e w h = elim (Bool-cases (is_special e.path)) [
    | inl special ↦ rw (if◌then◌else◌, special) (returned-Quiet n tt w h)
    | inr plain ↦
        let fewer : S.lines_left from (K.fwrite file (maps_entry_bytes e) w).1 ≤ n =
          omega (arith, h, lines.fwrite_lines from file (maps_entry_bytes e) w) in
        rw (if◌then◌else◌, plain)
          (and_then-Quiet n
            (fatal_if (not (K.fwrite file (maps_entry_bytes e) w).0)
              (K.fwrite file (maps_entry_bytes e) w).1)
            _ (fatal_if-Quiet n _ _ fewer)
            λ _ v less.
              dump_chunks-Quiet n (suc (entry_size e)) pid file e.read e.start (entry_size e) v
                (omega arith) less)
  ]

-- With more rounds than lines left, where each line is taken from its stream, the dump of the
-- mappings comes to an end.
pub dump_entries-Ends :
    (K : Kernel) (S : Streams K)
    → HasLines K S
    → (fuel pid file : ℕ) (iter : MapsIter) (w : K.World) → S.lines_left iter.file w < fuel
    → Ends (dump_entries K fuel pid file iter w)
unfolding dump_entries next next_of parse_maps_str
dump_entries-Ends K S lines zero pid file iter w lt = absurd (omega arith)
dump_entries-Ends K S lines (suc fuel) pid file iter w lt =
    go (dump_entries-Ends K S lines fuel pid file) (K.getline iter.file w).0 refl
  where
    go :
        ((next_iter : MapsIter) (v : K.World)
          → S.lines_left next_iter.file v < fuel
          → Ends (dump_entries K fuel pid file next_iter v))
        → (got : Line) → (K.getline iter.file w).0 ≡ got
        → Ends (dump_entries K (suc fuel) pid file iter w)
    go more (line text) e =
        let u = (K.getline iter.file w).1 in
        let taken = lines.getline_takes iter.file text w e in
        let entry = scanned_entry (K.sscanf_maps text iter.path) in
        elim (Bool-cases (ltb (K.sscanf_maps text iter.path).count 4)) [
          | inl short ↦ rw (e, short) tt
          | inr enough ↦
              rw (e, enough)
                (and_then-Ends-Quiet K S lines iter.file (S.lines_left iter.file u)
                  (dump_entry K pid file entry u) _
                  (dump_entry-Quiet K S lines iter.file (S.lines_left iter.file u) pid file entry u
                    (omega arith))
                  λ _ v few.
                    more (record { file = iter.file; path = entry.path }) v
                      (omega (arith, few, taken, lt)))
        ]
    go more end_of_file e = elim (Bool-cases (K.fclose iter.file (K.getline iter.file w).1).0) [
      | inl closed ↦ rw (e, closed) tt
      | inr failed ↦ rw (e, failed) tt
    ]
    go more read_error e = rw e tt
