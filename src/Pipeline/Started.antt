-- ===== src/Pipeline/Started.antt =====
-- A run of snapshotter/src/main.c, and loader/src/dump.c on the file that it leaves.
use process_bridge.Base.{Option, ℕ, some, ◌≡◌, none}
use process_bridge.Snapshotter.Kernel.{Kernel}
use process_bridge.Snapshotter.Elf.{Elf}
use process_bridge.Loader.Host.{Host}

-- A register holds what a snapshot has for it, if it has something.
abbrev pub Agrees : Option ℕ → ℕ → Type 0
Agrees none held = Unit
Agrees (some value) held = held ≡ value
