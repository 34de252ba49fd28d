-- ===== src/Loader/Gdt/Descriptors.antt =====
-- The two macros that build descriptors, against the processor's view of a descriptor.
use process_bridge.Base.{
  ℕ, zero, suc, ◌+◌, ◌-◌, ◌*◌, ◌/◌, ◌%◌, ◌^◌, ◌<◌, ◌≡◌, refl, bit_or, bit_xor, arith,
}
use process_bridge.Base.Bits.{or_fields, shifted_field, shift_fits, bit_or-zero}
use process_bridge.Common.UserDesc.{UserDesc, IsUserDesc}
use process_bridge.Loader.Gdt.{gdt_entry_init, user_desc_to_real_desc}
use process_bridge.Loader.Gdt.Fields.{Segment, segment, behind, segment-or_fields}

-- The segment that flags of `_DESC_*`, a base and a limit stand for.
abbrev pub flagged : ℕ → ℕ → ℕ → Segment
flagged flags base limit = record {
  base = base % 2 ^ 32;
  limit = limit % 2 ^ 20;
  kind = flags % 2 ^ 4;
  s = flags / 2 ^ 4 % 2;
  dpl = flags / 2 ^ 5 % 4;
  present = flags / 2 ^ 7 % 2;
  avl = flags / 2 ^ 12 % 2;
  long = flags / 2 ^ 13 % 2;
  db = flags / 2 ^ 14 % 2;
  granularity = flags / 2 ^ 15 % 2;
}

gdt_entry_init-or_fields :
    (flags base limit : ℕ)
    → gdt_entry_init flags base limit
      ≡ or_fields 16 (limit % 2 ^ 20 % 2 ^ 16) (behind (flagged flags base limit))
unfolding gdt_entry_init or_fields
gdt_entry_init-or_fields flags base limit =
    let low : limit / 2 ^ 0 % 2 ^ 16 * 2 ^ 0 ≡ limit % 2 ^ 20 % 2 ^ 16 = omega arith in
    let low_base : base / 2 ^ 0 % 2 ^ 16 ≡ base % 2 ^ 32 % 2 ^ 16 = omega arith in
    let middle_base : base / 2 ^ 16 % 2 ^ 8 ≡ base % 2 ^ 32 / 2 ^ 16 % 2 ^ 8 = omega arith in
    let high_base : base / 2 ^ 24 % 2 ^ 8 ≡ base % 2 ^ 32 / 2 ^ 24 % 2 ^ 8 = omega arith in
    let high : limit / 2 ^ 16 % 2 ^ 4 ≡ limit % 2 ^ 20 / 2 ^ 16 % 2 ^ 4 = omega arith in
    let kind : flags / 2 ^ 0 % 2 ^ 4 ≡ flags % 2 ^ 4 = omega arith in
    rw
      (
        shifted_field 16 0 0 limit (omega arith),
        shifted_field 16 0 16 base (omega arith),
        shifted_field 8 16 16 base (omega arith),
        shifted_field 4 0 40 flags (omega arith),
        shifted_field 1 4 40 flags (omega arith),
        shifted_field 2 5 40 flags (omega arith),
        shifted_field 1 7 40 flags (omega arith),
        shifted_field 4 16 32 limit (omega arith),
        shifted_field 1 12 40 flags (omega arith),
        shifted_field 1 13 40 flags (omega arith),
        shifted_field 1 14 40 flags (omega arith),
        shifted_field 1 15 40 flags (omega arith),
        shifted_field 8 24 32 base (omega arith),
      )
      (rw (low, low_base, middle_base, high_base, high, kind) refl)

-- The processor reads in `GDT_ENTRY_INIT` the base, the limit and each flag, at any flags, base
-- and limit.
pub segment-gdt_entry_init :
    (flags base limit : ℕ) → segment (gdt_entry_init flags base limit) ≡ flagged flags base limit
segment-gdt_entry_init flags base limit =
    rw gdt_entry_init-or_fields (segment-or_fields (flagged flags base limit) (omega arith))

-- The segment that a `struct user_desc` asks for: accessed, of user data or code, in ring 3.
abbrev pub requested : UserDesc → Segment
requested d = record {
  base = d.base_addr;
  limit = d.limit % 2 ^ 20;
  kind = d.contents * 4 + (1 - d.read_exec_only) * 2 + 1;
  s = 1;
  dpl = 3;
  present = 1 - d.seg_not_present;
  avl = d.useable;
  long = 0;
  db = d.seg_32bit;
  granularity = d.limit_in_pages;
}

bit_xor-one : (b : ℕ) → b < 2 → bit_xor b 1 ≡ 1 - b
bit_xor-one zero h = refl
bit_xor-one (suc zero) h = refl
bit_xor-one (suc (suc b)) h = absurd (omega arith)

kind_bits :
    (r c : ℕ)
    → r < 2
    → c < 4
    → bit_or (bit_or (bit_xor r 1 * 2 % 2 ^ 64) (c * 4 % 2 ^ 64)) 1 * 2 ^ 40 % 2 ^ 64
      ≡ (c * 4 + (1 - r) * 2 + 1) * 2 ^ 40
kind_bits zero zero h k = refl
kind_bits zero (suc zero) h k = refl
kind_bits zero (suc (suc zero)) h k = refl
kind_bits zero (suc (suc (suc zero))) h k = refl
kind_bits zero (suc (suc (suc (suc c)))) h k = absurd (omega arith)
kind_bits (suc zero) zero h k = refl
kind_bits (suc zero) (suc zero) h k = refl
kind_bits (suc zero) (suc (suc zero)) h k = refl
kind_bits (suc zero) (suc (suc (suc zero))) h k = refl
kind_bits (suc zero) (suc (suc (suc (suc c)))) h k = absurd (omega arith)
kind_bits (suc (suc r)) c h k = absurd (omega arith)

user_desc-or_fields :
    (d : UserDesc)
    → IsUserDesc d
    → user_desc_to_real_desc d ≡ or_fields 16 (d.limit % 2 ^ 20 % 2 ^ 16) (behind (requested d))
unfolding user_desc_to_real_desc or_fields
user_desc-or_fields d h =
    let limit : ℕ = d.limit in
    let base : ℕ = d.base_addr in
    let low : limit / 2 ^ 0 % 2 ^ 16 * 2 ^ 0 ≡ limit % 2 ^ 20 % 2 ^ 16 = omega arith in
    let high : limit / 2 ^ 16 / 2 ^ 0 % 2 ^ 4 ≡ limit % 2 ^ 20 / 2 ^ 16 % 2 ^ 4 = omega arith in
    let low_base : base / 2 ^ 0 % 2 ^ 16 ≡ base % 2 ^ 16 = omega arith in
    let middle_base : base / 2 ^ 16 / 2 ^ 0 % 2 ^ 8 ≡ base / 2 ^ 16 % 2 ^ 8 = omega arith in
    let high_base : base / 2 ^ 24 / 2 ^ 0 % 2 ^ 8 ≡ base / 2 ^ 24 % 2 ^ 8 = omega arith in
    let present = 1 - d.seg_not_present in
    rw
      (
        shifted_field 16 0 0 d.limit (omega arith),
        shifted_field 16 0 16 d.base_addr (omega arith),
        shifted_field 8 0 32 (d.base_addr / 2 ^ 16) (omega arith),
        kind_bits d.read_exec_only d.contents h.read_exec_only_fits h.contents_fits,
        bit_xor-one d.seg_not_present h.seg_not_present_fits,
        shifted_field 4 0 48 (d.limit / 2 ^ 16) (omega arith),
        shifted_field 8 0 56 (d.base_addr / 2 ^ 24) (omega arith),
        bit_or-zero,
      )
      (rw (
        low,
        high,
        low_base,
        middle_base,
        high_base,
        shift_fits 47 1 present (omega arith) (omega arith),
        shift_fits 52 1 d.useable h.useable_fits (omega arith),
        shift_fits 54 1 d.seg_32bit h.seg_32bit_fits (omega arith),
        shift_fits 55 1 d.limit_in_pages h.limit_in_pages_fits (omega arith),
      ))

-- The processor reads in `USER_DESC_TO_REAL_DESC` what the `struct user_desc` asks for, at every
-- value of its fields; of the limit the low 20 bits.
pub segment-user_desc_to_real_desc :
    (d : UserDesc) → IsUserDesc d → segment (user_desc_to_real_desc d) ≡ requested d
segment-user_desc_to_real_desc d h =
    rw (user_desc-or_fields d h) (segment-or_fields (requested d) (omega arith))
