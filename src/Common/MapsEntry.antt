-- ===== src/Common/MapsEntry.antt =====
-- common/include/linux/maps_entry.h: the header of one mapping in a snapshot.
use process_bridge.Base.{ℕ, ◌+◌, ◌^◌, ◌<◌, ◌≡◌, List, ◌++◌, length, take, drop, arith, take-length}
use process_bridge.Base.Bytes.{le_bytes, le_value, word_at, le_value-le_bytes}

abbrev pub max_path : ℕ
max_path = 4096

pub record MapsEntry : Type 0 where
  pub start : ℕ
  pub end : ℕ
  pub read : ℕ
  pub write : ℕ
  pub exec : ℕ
  pub shared : ℕ
  pub file_offset : ℕ
  pub path : List ℕ

-- `sizeof(maps_entry_t)`, as the static assertion has it.
abbrev pub sizeof_maps_entry : ℕ
sizeof_maps_entry = 28 + max_path

-- The fields fit their C types.
pub record IsMapsEntry (e : MapsEntry) : Type 0 where
  pub start_fits : e.start < 256 ^ 8
  pub end_fits : e.end < 256 ^ 8
  pub read_fits : e.read < 256 ^ 1
  pub write_fits : e.write < 256 ^ 1
  pub exec_fits : e.exec < 256 ^ 1
  pub shared_fits : e.shared < 256 ^ 1
  pub file_offset_fits : e.file_offset < 256 ^ 8
  pub path_size : length e.path ≡ max_path

abbrev header_rest : MapsEntry → List ℕ
header_rest e = le_bytes 1 e.exec ++ (le_bytes 1 e.shared ++ (le_bytes 8 e.file_offset ++ e.path))

-- The bytes of the packed struct, as `fwrite` writes them.
unfoldable pub maps_entry_bytes : MapsEntry → List ℕ
maps_entry_bytes e =
    le_bytes 8 e.start
    ++ (le_bytes 8 e.end ++ (le_bytes 1 e.read ++ (le_bytes 1 e.write ++ header_rest e)))

-- The struct that a `memcpy` of its bytes gives.
unfoldable pub maps_entry_of : List ℕ → MapsEntry
maps_entry_of b = record {
  start = word_at 8 0 b;
  end = word_at 8 8 b;
  read = word_at 1 16 b;
  write = word_at 1 17 b;
  exec = word_at 1 18 b;
  shared = word_at 1 19 b;
  file_offset = word_at 8 20 b;
  path = take max_path (drop 28 b);
}

-- Writing an entry whose fields fit their types and reading its bytes back gives the entry.
pub maps_entry_of-maps_entry_bytes :
    (e : MapsEntry) → IsMapsEntry e → maps_entry_of (maps_entry_bytes e) ≡ e
unfolding maps_entry_of maps_entry_bytes word_at le_bytes le_value
maps_entry_of-maps_entry_bytes e h = λ i. record {
  start = le_value-le_bytes 8 e.start h.start_fits i;
  end = le_value-le_bytes 8 e.end h.end_fits i;
  read = le_value-le_bytes 1 e.read h.read_fits i;
  write = le_value-le_bytes 1 e.write h.write_fits i;
  exec = le_value-le_bytes 1 e.exec h.exec_fits i;
  shared = le_value-le_bytes 1 e.shared h.shared_fits i;
  file_offset = le_value-le_bytes 8 e.file_offset h.file_offset_fits i;
  path = take-length max_path e.path h.path_size i;
}

pub length-maps_entry_bytes :
    (e : MapsEntry) → IsMapsEntry e → length (maps_entry_bytes e) ≡ sizeof_maps_entry
unfolding maps_entry_bytes le_bytes
length-maps_entry_bytes e h = omega (arith, h.path_size)
