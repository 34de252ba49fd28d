-- ===== src/Loader/Dump/Termination.antt =====
-- The loop over the mappings ends on every file, well formed or not.
use process_bridge.Base.{
  ◌≡◌, ℕ, List, Ends, some, ◌-◌, and_then-Ends, ◌<◌, ◌+◌, ◌≤◌, arith, zero, suc, Bool-cases, ltb,
  inr, inl, Option-cases, tests, endings,
}
use process_bridge.Loader.Host.{Host}
use process_bridge.Loader.Dump.{
  read_bytes, load_mapping, load_mappings, mapping_size, read_front, dump_snapshot, restore_from,
  read_state,
}
use process_bridge.Common.MapsEntry.{MapsEntry, sizeof_maps_entry, maps_entry_of}
use process_bridge.Loader.Check.{pb_uc_check, pb_uc_check-Ends}
use process_bridge.Common.UserDesc.{DescLayout}
use process_bridge.Loader.Cpu.Termination.{dump_cpu_state-Ends}

pub read_bytes_bounds :
    (data_bytes : List ℕ) (file_size offset size : ℕ) (bytes : List ℕ) (behind : ℕ)
    → read_bytes data_bytes file_size offset size ≡ some (bytes, behind)
    → (behind ≡ offset + size) × (behind ≤ file_size)
unfolding read_bytes
read_bytes_bounds data_bytes file_size offset size bytes behind h = ground arith

load_mapping-Ends :
    (H : Host) (uc : ℕ) (e : MapsEntry) (content : List ℕ) (w : H.World)
    → Ends (load_mapping H uc e content w)
unfolding load_mapping
load_mapping-Ends H uc e content w =
    and_then-Ends (pb_uc_check _ w) _ (pb_uc_check-Ends _ w) λ _ w'.
      and_then-Ends (pb_uc_check _ w') _ (pb_uc_check-Ends _ w') λ _ w''. pb_uc_check-Ends _ w''

module _ (H : Host) (uc : ℕ) where
  -- With more rounds than bytes left, the loop over the mappings comes to an end on every file:
  -- each round takes a header at least.
  pub load_mappings-Ends :
      (fuel : ℕ) (data_bytes : List ℕ) (file_size offset loaded : ℕ)
      → file_size - offset < fuel
      → (w : H.World) → Ends (load_mappings H fuel uc data_bytes file_size offset loaded w)
  unfolding load_mappings
  load_mappings-Ends zero data_bytes file_size offset loaded h w = absurd (omega arith)
  load_mappings-Ends (suc fuel) data_bytes file_size offset loaded h w =
      elim (Bool-cases (ltb offset file_size)) [
        | inr done ↦ rw (load_mappings, done) tt
        | inl more ↦
            elim (Option-cases (read_bytes data_bytes file_size offset sizeof_maps_entry)) [
              | inl short ↦ rw (load_mappings, more, short) tt
              | inr ((header, behind), read) ↦
                  let size = mapping_size (maps_entry_of header) in
                  elim (Bool-cases (ltb (file_size - behind) size)) [
                    | inl long ↦ rw (load_mappings, more, read, long) tt
                    | inr fits ↦
                        let bounds =
                          read_bytes_bounds data_bytes file_size offset _ header behind read in
                        rw (load_mappings, more, read, fits)
                          (and_then-Ends (load_mapping H uc _ _ w) _ (load_mapping-Ends H uc _ _ w)
                            λ _ w'.
                              load_mappings-Ends fuel data_bytes file_size (behind + size)
                                (loaded + 1) (omega (tests, bounds, more)) w')
                  ]
            ]
      ]

read-Ends :
    {W : Type 0} (data_bytes : List ℕ) (file_size size : ℕ) (w : W)
    → Ends (read_front data_bytes file_size size w)
unfolding read_front
read-Ends data_bytes file_size size w =
    elim (Option-cases (read_bytes data_bytes file_size 0 size)) [
      | inl short ↦ rw (short, read_front) tt
      | inr (r, read) ↦ rw (read, read_front) tt
    ]

module _ (H : Host) (L : DescLayout) (uc : ℕ) where
  read_state-Ends :
      (mode : ℕ) (data_bytes : List ℕ) (file_size : ℕ) (w : H.World)
      → Ends (read_state H L mode data_bytes file_size w)
  unfolding read_state
  read_state-Ends mode data_bytes file_size w = search (endings, read-Ends)

  restore_from-Ends :
      (data_bytes : List ℕ) (file_size : ℕ) (w : H.World)
      → Ends (restore_from H L uc data_bytes file_size w)
  unfolding restore_from
  restore_from-Ends data_bytes file_size w =
      let (mode, w') = H.uc_query_mode uc (H.uc_query_arch uc w).1 in
      and_then-Ends (read_state H L mode data_bytes file_size w') _
        (read_state-Ends mode data_bytes file_size w')
        λ r w''.
          and_then-Ends (load_mappings H _ uc data_bytes file_size r.1 0 w'') _
            (load_mappings-Ends H uc (suc file_size) data_bytes file_size r.1 0 (omega arith) w'')
            λ _ w'''. dump_cpu_state-Ends H uc L _ w'''

  -- Restoring a snapshot comes to an end for every path, engine and world: the rounds that the
  -- loop over the mappings is given, one more than the size of the file, are always enough.
  pub dump_snapshot-Ends :
      (snapshot_path : List ℕ) (w : H.World) → Ends (dump_snapshot H L uc snapshot_path w)
  unfolding dump_snapshot
  dump_snapshot-Ends snapshot_path w = search (endings, restore_from-Ends) depth 10
