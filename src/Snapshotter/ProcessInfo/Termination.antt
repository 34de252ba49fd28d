-- ===== src/Snapshotter/ProcessInfo/Termination.antt =====
-- The rounds of the search for the image base, of snapshotter/src/linux/process_info.c.
use process_bridge.Base.{ℕ, List, ◌<◌, Ends, arith, suc, ◌≡◌, Bool-cases, ltb, inl, inr, zero, refl}
use process_bridge.Snapshotter.Kernel.{
  Kernel, Streams, HasLines, Line, line, end_of_file, read_error,
}
use process_bridge.Snapshotter.Maps.{MapsIter, next_of, parse_maps_str, next}
use process_bridge.Snapshotter.ProcessInfo.{min_start_from}

-- With more rounds than lines left, where each line is taken from its stream, the search for the
-- lowest start among the mappings of the file comes to an end.
pub min_start_from-Ends :
    (K : Kernel) (S : Streams K)
    → HasLines K S
    → (fuel : ℕ) (iter : MapsIter) (path : List ℕ) (min_addr : ℕ) (w : K.World)
    → S.lines_left iter.file w < fuel
    → Ends (min_start_from K fuel iter path min_addr w)
unfolding min_start_from next next_of parse_maps_str
min_start_from-Ends K S lines zero iter path min_addr w lt = absurd (omega arith)
min_start_from-Ends K S lines (suc fuel) iter path min_addr w lt =
    go (λ next_iter lowest v. min_start_from-Ends K S lines fuel next_iter path lowest v)
      (K.getline iter.file w).0 refl
  where
    go :
        ((next_iter : MapsIter) (lowest : ℕ) (v : K.World)
          → S.lines_left next_iter.file v < fuel
          → Ends (min_start_from K fuel next_iter path lowest v))
        → (got : Line) → (K.getline iter.file w).0 ≡ got
        → Ends (min_start_from K (suc fuel) iter path min_addr w)
    go more (line text) e =
        let taken = lines.getline_takes iter.file text w e in
        elim (Bool-cases (ltb (K.sscanf_maps text iter.path).count 4)) [
          | inl short ↦ rw (e, short) tt
          | inr enough ↦ rw (e, enough) (more _ _ _ (omega (arith, taken, lt)))
        ]
    go more end_of_file e = elim (Bool-cases (K.fclose iter.file (K.getline iter.file w).1).0) [
      | inl closed ↦ rw (e, closed) tt
      | inr failed ↦ rw (e, failed) tt
    ]
    go more read_error e = rw e tt
