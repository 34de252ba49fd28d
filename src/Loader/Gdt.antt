-- ===== src/Loader/Gdt.antt =====
-- loader/include/gdt_utils.h: segment descriptors.
pub mod Fields
pub mod Descriptors
use process_bridge.Base.{ℕ, ◌*◌, ◌/◌, ◌%◌, ◌^◌, bit_and, bit_or, bit_xor}
use process_bridge.Common.UserDesc.{UserDesc}

abbrev pub pb_gdt_addr : ℕ
pb_gdt_addr = 0x3000

abbrev pub pb_gdt_size : ℕ
pb_gdt_size = 0x1000

infixl 60 ◌shl◌ ◌shr◌
infixl 58 ◌band◌
infixl 56 ◌bor◌
-- `uint64_t` shifts and masks.
abbrev pub ◌shl◌ : ℕ → ℕ → ℕ
v shl k = v * 2 ^ k % 2 ^ 64

abbrev pub ◌shr◌ : ℕ → ℕ → ℕ
v shr k = v / 2 ^ k

abbrev pub ◌band◌ : ℕ → ℕ → ℕ
v band m = bit_and v m

abbrev pub ◌bor◌ : ℕ → ℕ → ℕ
u bor v = bit_or u v

-- `_DESC_*`
abbrev desc_accessed : ℕ
desc_accessed = 0x0001

abbrev desc_data_writable : ℕ
desc_data_writable = 0x0002

abbrev desc_code_readable : ℕ
desc_code_readable = 0x0002

abbrev desc_code_executable : ℕ
desc_code_executable = 0x0008

abbrev desc_s : ℕ
desc_s = 0x0010

abbrev desc_dpl : ℕ → ℕ
desc_dpl dpl = dpl * 2 ^ 5

abbrev desc_present : ℕ
desc_present = 0x0080

abbrev desc_long_code : ℕ
desc_long_code = 0x2000

abbrev desc_db : ℕ
desc_db = 0x4000

abbrev desc_granularity_4k : ℕ
desc_granularity_4k = 0x8000

abbrev desc_data : ℕ
desc_data = desc_s bor desc_present bor desc_accessed bor desc_data_writable

abbrev desc_code : ℕ
desc_code =
    desc_s bor desc_present bor desc_accessed bor desc_code_readable bor desc_code_executable

abbrev pub desc_data32 : ℕ
desc_data32 = desc_data bor desc_granularity_4k bor desc_db

abbrev pub desc_code32 : ℕ
desc_code32 = desc_code bor desc_granularity_4k bor desc_db

abbrev pub desc_data64 : ℕ
desc_data64 = desc_data bor desc_granularity_4k bor desc_db

abbrev pub desc_code64 : ℕ
desc_code64 = desc_code bor desc_granularity_4k bor desc_long_code

abbrev pub desc_user : ℕ
desc_user = desc_dpl 3

-- `GDT_ENTRY_INIT(flags, base, limit)`
unfoldable pub gdt_entry_init : ℕ → ℕ → ℕ → ℕ
gdt_entry_init flags base limit =
    ((limit band 0xFFFF) shl 0)
    bor ((base band 0xFFFF) shl 16)
    bor ((base band 0xFF0000) shl 16)
    bor ((flags band 0x000F) shl 40)
    bor ((flags band 0x0010) shl 40)
    bor ((flags band 0x0060) shl 40)
    bor ((flags band 0x0080) shl 40)
    bor ((limit band 0xF0000) shl 32)
    bor ((flags band 0x1000) shl 40)
    bor ((flags band 0x2000) shl 40)
    bor ((flags band 0x4000) shl 40)
    bor ((flags band 0x8000) shl 40)
    bor ((base band 0xFF000000) shl 32)

-- `USER_DESC_TO_REAL_DESC(user_desc)`
unfoldable pub user_desc_to_real_desc : UserDesc → ℕ
user_desc_to_real_desc d =
    ((d.limit band 0xFFFF) shl 0)
    bor ((d.base_addr band 0xFFFF) shl 16)
    bor (((d.base_addr shr 16) band 0xFF) shl 32)
    bor ((((bit_xor d.read_exec_only 1) shl 1) bor (d.contents shl 2) bor 1) shl 40)
    bor (1 shl 44)
    bor (3 shl 45)
    bor ((bit_xor d.seg_not_present 1) shl 47)
    bor (((d.limit shr 16) band 0xF) shl 48)
    bor (d.useable shl 52)
    bor (d.seg_32bit shl 54)
    bor (d.limit_in_pages shl 55)
    bor (((d.base_addr shr 24) band 0xFF) shl 56)
