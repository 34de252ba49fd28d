-- ===== src/Common/Snapshot.antt =====
-- The form of a snapshot file behind the process state: for each mapping its header and its bytes.
use process_bridge.Base.{ℕ, ◌-◌, ◌≤◌, ◌≡◌, List, [], ◌∷◌, ◌++◌, length}
use process_bridge.Common.MapsEntry.{MapsEntry, IsMapsEntry, maps_entry_bytes}

pub record Section : Type 0 where
  pub entry : MapsEntry
  pub content : List ℕ

pub record IsSection (s : Section) : Type 0 where
  pub entry_fits : IsMapsEntry s.entry
  pub ordered : s.entry.start ≤ s.entry.end
  pub content_size : length s.content ≡ s.entry.end - s.entry.start

unfoldable pub sections_bytes : List Section → List ℕ
sections_bytes [] = []
sections_bytes (s ∷ ss) = maps_entry_bytes s.entry ++ (s.content ++ sections_bytes ss)
