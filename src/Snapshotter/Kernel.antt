-- ===== src/Snapshotter/Kernel.antt =====
-- What the snapshotter calls and does not implement: the C library and the system calls, over one
-- world. A stream is the number that stands for its pointer.
use process_bridge.Base.{some, [], ℕ, Option, List, Bool, length, ◌≡◌, ◌<◌, ◌≤◌, ◌^◌, ◌++◌, true}
use process_bridge.Common.MapsEntry.{max_path}

-- What `getline` gives.
pub data Line : Type 0 where
  line : List ℕ → Line
  end_of_file read_error : Line

-- What the `sscanf` of a line of /proc/<pid>/maps gives: the number of items, and the variables. A
-- variable that was not assigned, and the bytes of the path behind the text, are as they were.
pub record Scan : Type 0 where
  pub count : ℕ
  pub start : ℕ
  pub end : ℕ
  pub perms : List ℕ
  pub file_offset : ℕ
  pub path : List ℕ

-- A test that a call succeeded is given as a truth value. `snprintf_maps` is the path
-- /proc/<pid>/maps where it fits its buffer.
pub record Kernel : Type 1 where
  pub World : Type 0
  pub snprintf_maps : ℕ → Option (List ℕ)
  pub sscanf_maps : List ℕ → List ℕ → Scan
  pub fopen_rb : List ℕ → World → Option ℕ × World
  pub fopen_wb : List ℕ → World → Option ℕ × World
  pub fclose : ℕ → World → Bool × World
  pub getline : ℕ → World → Line × World
  pub fwrite : ℕ → List ℕ → World → Bool × World
  pub fflush : ℕ → World → Bool × World
  pub malloc : ℕ → World → Bool × World
  pub process_vm_readv : ℕ → ℕ → ℕ → World → Option (List ℕ) × World
  pub uninitialised_path : List ℕ

-- The bytes that were written to a stream, and the lines that are left to read from one.
pub record Streams (K : Kernel) : Type 0 where
  pub contents : ℕ → K.World → List ℕ
  pub lines_left : ℕ → K.World → ℕ

module _ (K : Kernel) (S : Streams K) where
  -- `fwrite` adds to the end of a stream; reading another stream or another process, flushing and
  -- allocating leave it alone; a new stream for writing is empty.
  pub record HasStreams : Type 0 where
    pub fwrite_adds :
        (file : ℕ) (bytes : List ℕ) (w : K.World)
        → (K.fwrite file bytes w).0 ≡ true
        → S.contents file (K.fwrite file bytes w).1 ≡ S.contents file w ++ bytes
    pub fflush_keeps :
        (file : ℕ) (w : K.World) → S.contents file (K.fflush file w).1 ≡ S.contents file w
    pub fopen_rb_keeps :
        (file : ℕ) (path : List ℕ) (w : K.World)
        → S.contents file (K.fopen_rb path w).1 ≡ S.contents file w
    pub fopen_wb_empties :
        (file : ℕ) (path : List ℕ) (w : K.World)
        → (K.fopen_wb path w).0 ≡ some file
        → S.contents file (K.fopen_wb path w).1 ≡ []
    pub getline_keeps :
        (file from : ℕ) (w : K.World) → S.contents file (K.getline from w).1 ≡ S.contents file w
    pub fclose_keeps :
        (file from : ℕ) (w : K.World) → S.contents file (K.fclose from w).1 ≡ S.contents file w
    pub malloc_keeps :
        (file size : ℕ) (w : K.World) → S.contents file (K.malloc size w).1 ≡ S.contents file w
    pub readv_keeps :
        (file pid address size : ℕ) (w : K.World)
        → S.contents file (K.process_vm_readv pid address size w).1 ≡ S.contents file w

-- What the kernel says of a mapping: its bounds are 64-bit addresses in their order.
pub record IsScan (s : Scan) : Type 0 where
  pub start_fits : s.start < 256 ^ 8
  pub end_fits : s.end < 256 ^ 8
  pub ordered : s.start ≤ s.end
  pub file_offset_fits : s.file_offset < 256 ^ 8
  pub path_size : length s.path ≡ max_path

-- A line that gives its first four items is one of a mapping.
pub record HasMaps (K : Kernel) : Type 0 where
  pub uninitialised_size : length K.uninitialised_path ≡ max_path
  pub scanned :
      (text path : List ℕ)
      → length path ≡ max_path
      → 4 ≤ (K.sscanf_maps text path).count
      → IsScan (K.sscanf_maps text path)

-- A line that is read is taken from its stream, and other calls bring no new lines.
pub record HasLines (K : Kernel) (S : Streams K) : Type 0 where
  pub getline_takes :
      (from : ℕ) (text : List ℕ) (w : K.World)
      → (K.getline from w).0 ≡ line text
      → S.lines_left from (K.getline from w).1 < S.lines_left from w
  pub fwrite_lines :
      (from file : ℕ) (bytes : List ℕ) (w : K.World)
      → S.lines_left from (K.fwrite file bytes w).1 ≤ S.lines_left from w
  pub readv_lines :
      (from pid address size : ℕ) (w : K.World)
      → S.lines_left from (K.process_vm_readv pid address size w).1 ≤ S.lines_left from w
