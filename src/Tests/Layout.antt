-- ===== src/Tests/Layout.antt =====
-- A layout of `struct user_desc`, that of <asm/ldt.h>.
use process_bridge.Base.{[], ◌∷◌, ℕ, ◌+◌, ◌/◌, ◌%◌, ◌*◌, ◌≡◌, arith, refl}
use process_bridge.Common.UserDesc.{DescLayout, UserDesc, IsUserDesc, IsLawful}
use process_bridge.Base.Bytes.{words_bytes, word_at, le_bytes, le_value, le_value-le_bytes}

-- The words of <asm/ldt.h>: the entry number, the base, the limit and the flags.
abbrev flag_bits : UserDesc → ℕ
flag_bits d =
    d.seg_32bit
    + 2 * d.contents
    + 8 * d.read_exec_only
    + 16 * d.limit_in_pages
    + 32 * d.seg_not_present
    + 64 * d.useable

abbrev pub sample_layout : DescLayout
sample_layout = record {
  size = 16;
  bytes = λ d. words_bytes 4 (d.entry_number ∷ d.base_addr ∷ d.limit ∷ flag_bits d ∷ []);
  desc_of = λ b.
      let flags = word_at 4 12 b in
      record {
        entry_number = word_at 4 0 b;
        base_addr = word_at 4 4 b;
        limit = word_at 4 8 b;
        seg_32bit = flags / 1 % 2;
        contents = flags / 2 % 4;
        read_exec_only = flags / 8 % 2;
        limit_in_pages = flags / 16 % 2;
        seg_not_present = flags / 32 % 2;
        useable = flags / 64 % 2;
      };
}

flag_word : (d : UserDesc) → IsUserDesc d → le_value (le_bytes 4 (flag_bits d)) ≡ flag_bits d
flag_word d h = le_value-le_bytes 4 (flag_bits d) (
    omega (
      arith, h.seg_32bit_fits, h.contents_fits, h.read_exec_only_fits, h.limit_in_pages_fits,
      h.seg_not_present_fits, h.useable_fits,
    ))

-- A flag read back from the word of flags.
flag_read :
    (d : UserDesc)
    → IsUserDesc d
    → (k m v : ℕ) → flag_bits d / k % m ≡ v
    → le_value (le_bytes 4 (flag_bits d)) / k % m ≡ v
flag_read d h k m v e = rw (flag_word d h) e

pub sample_layout-IsLawful : IsLawful sample_layout
unfolding words_bytes word_at le_bytes le_value
sample_layout-IsLawful = record {
  length-bytes = λ d. refl;
  desc_of-bytes = λ d h i. record {
    entry_number = le_value-le_bytes 4 d.entry_number h.entry_number_fits i;
    base_addr = le_value-le_bytes 4 d.base_addr h.base_addr_fits i;
    limit = le_value-le_bytes 4 d.limit h.limit_fits i;
    seg_32bit = flag_read d h 1 2 d.seg_32bit (omega (arith, h.seg_32bit_fits)) i;
    contents = flag_read d h 2 4 d.contents (omega (arith, h.seg_32bit_fits, h.contents_fits)) i;
    read_exec_only =
        flag_read d h 8 2 d.read_exec_only
          (omega (arith, h.seg_32bit_fits, h.contents_fits, h.read_exec_only_fits)) i;
    limit_in_pages =
        flag_read d h 16 2 d.limit_in_pages
          (omega (
            arith, h.seg_32bit_fits, h.contents_fits, h.read_exec_only_fits, h.limit_in_pages_fits,
          ))
          i;
    seg_not_present =
        flag_read d h 32 2 d.seg_not_present
          (omega (
            arith, h.seg_32bit_fits, h.contents_fits, h.read_exec_only_fits, h.limit_in_pages_fits,
            h.seg_not_present_fits,
          ))
          i;
    useable =
        flag_read d h 64 2 d.useable
          (omega (
            arith, h.seg_32bit_fits, h.contents_fits, h.read_exec_only_fits, h.limit_in_pages_fits,
            h.seg_not_present_fits, h.useable_fits,
          ))
          i;
  };
}
