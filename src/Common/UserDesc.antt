-- ===== src/Common/UserDesc.antt =====
-- `struct user_desc` of <asm/ldt.h>, a descriptor of thread-local storage. Its layout in memory is
-- the compiler's, and a parameter.
-- `struct user_desc` of <asm/ldt.h>: the fields that the program uses.
use Prim.Native.Nat.{ℕ, ◌<◌, ◌^◌}
use process_bridge.Base.{length, List, ◌≡◌}

pub record UserDesc : Type 0 where
  pub entry_number : ℕ
  pub base_addr : ℕ
  pub limit : ℕ
  pub seg_32bit : ℕ
  pub contents : ℕ
  pub read_exec_only : ℕ
  pub limit_in_pages : ℕ
  pub seg_not_present : ℕ
  pub useable : ℕ

-- The fields fit the widths that the kernel's header gives them.
pub record IsUserDesc (d : UserDesc) : Type 0 where
  pub entry_number_fits : d.entry_number < 2 ^ 32
  pub base_addr_fits : d.base_addr < 2 ^ 32
  pub limit_fits : d.limit < 2 ^ 32
  pub seg_32bit_fits : d.seg_32bit < 2
  pub contents_fits : d.contents < 4
  pub read_exec_only_fits : d.read_exec_only < 2
  pub limit_in_pages_fits : d.limit_in_pages < 2
  pub seg_not_present_fits : d.seg_not_present < 2
  pub useable_fits : d.useable < 2

-- How the compiler lays a `struct user_desc` out in memory.
pub record DescLayout : Type 0 where
  pub size : ℕ
  pub bytes : UserDesc → List ℕ
  pub desc_of : List ℕ → UserDesc

-- A value is copied by its bytes.
pub record IsLawful (L : DescLayout) : Type 0 where
  pub length-bytes : (d : UserDesc) → length (L.bytes d) ≡ L.size
  pub desc_of-bytes : (d : UserDesc) → IsUserDesc d → L.desc_of (L.bytes d) ≡ d
