-- ===== src/Snapshotter/Maps.antt =====
-- snapshotter/src/linux/maps_parser.c
use process_bridge.Base.{
  ℕ, List, Option, some, none, Run, pure, fatal, fatal_if, call, or_fatal, get_or, set, ltb,
  if◌then◌else◌, ◌==◌, not, ◌>>=◌, ◌>>◌,
}
use process_bridge.Common.MapsEntry.{MapsEntry}
use process_bridge.Snapshotter.Kernel.{Kernel, Scan, Line, line, end_of_file, read_error}

-- `maps_iter_t`: its stream and the buffer of the entry's path. `line` is only freed.
pub record MapsIter : Type 0 where
  pub file : ℕ
  pub path : List ℕ

abbrev pub flag : ℕ → ℕ → ℕ
flag byte letter = if byte == letter then 1 else 0

-- The entry of a line that was scanned.
unfoldable pub scanned_entry : Scan → MapsEntry
scanned_entry s = record {
  start = s.start;
  end = s.end;
  read = flag (get_or s.perms 0 0) 114;
  write = flag (get_or s.perms 1 0) 119;
  exec = flag (get_or s.perms 2 0) 120;
  shared = flag (get_or s.perms 3 0) 115;
  file_offset = s.file_offset;
  path = if s.count == 4 then set s.path 0 0 else s.path;
}

module _ (K : Kernel) where
  unfoldable pub parse_maps_str : List ℕ → List ℕ → Run K.World MapsEntry
  parse_maps_str text path = do
    fatal_if (ltb (K.sscanf_maps text path).count 4)
    pure (scanned_entry (K.sscanf_maps text path))

  unfoldable pub create_maps_iter : ℕ → Run K.World MapsIter
  create_maps_iter pid = do
    name ← or_fatal (λ w. (K.snprintf_maps pid, w))
    file ← or_fatal (K.fopen_rb name)
    pure (record { file = file; path = K.uninitialised_path })

  -- What follows the `getline` of `next`: the entry and the buffer that it stands in, or the end.
  unfoldable pub next_of : MapsIter → Line → Run K.World (Option MapsEntry)
  next_of iter (line text) = do entry ← parse_maps_str text iter.path; pure (some entry)
  next_of iter end_of_file = do closed ← call (K.fclose iter.file); fatal_if (not closed); pure none
  next_of iter read_error = fatal

  unfoldable pub next : MapsIter → Run K.World (Option MapsEntry)
  next iter = do got ← call (K.getline iter.file); next_of iter got
