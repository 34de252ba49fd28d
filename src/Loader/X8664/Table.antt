-- ===== src/Loader/X8664/Table.antt =====
-- The table of descriptors of an x86_64 engine, and the selectors that it is made for.
use process_bridge.Base.{
  ◌≡◌, ℕ, ◌⊎◌, List, set, false, length, not, returned, ◌||◌, ◌==◌, arith, ◌<◌, ◌&&◌, ◌+◌, get_or,
  some, fatal_if-eq_returned, true, ◌-◌, ap, ◌∙◌, if◌then◌else◌, ◌%◌, replicate, ◌^◌, refl, ◌++◌,
  ◌∷◌,
}
use process_bridge.Loader.Host.{Host}
use process_bridge.Loader.Engine.{View, HasMemory, inside}
use process_bridge.Loader.X8664.{
  zero_gdt, dump_gdt, in_ldt, table_index, gdt_entry_default_user_cs, gdt_entry_default_user_ds,
}
use process_bridge.Common.X8664.{X8664Regs}
use process_bridge.Loader.Gdt.{
  gdt_entry_init, desc_code64, pb_gdt_size, ◌bor◌, desc_user, pb_gdt_addr, desc_data64,
}
use process_bridge.Base.Bytes.{words_bytes, length-words_bytes}
use process_bridge.Loader.Gdt.Fields.{Segment, behind}
use process_bridge.Base.Bits.{or_fields}
use process_bridge.Loader.Check.{pb_uc_check_passed}

-- The selectors that the loader accepts.
pub record IsUserSelectors (s : X8664Regs) : Type 0 where
  pub global :
      (in_ldt s.cs || in_ldt s.ds || in_ldt s.es || in_ldt s.fs || in_ldt s.gs || in_ldt s.ss)
      ≡ false
  pub code_segment : table_index s.cs ≡ gdt_entry_default_user_cs
  pub stack_segment : table_index s.ss ≡ gdt_entry_default_user_ds
  pub data_segment : (table_index s.ds ≡ 0) ⊎ (table_index s.ds ≡ gdt_entry_default_user_ds)
  pub extra_segment : (table_index s.es ≡ 0) ⊎ (table_index s.es ≡ gdt_entry_default_user_ds)

-- A flat segment of ring 3: its base is 0 and its limit 2 ^ 20 - 1 pages of 4096 bytes, and it is
-- present. The kinds are those of the Intel manual: 11 is code that can be read, 3 is data that can
-- be written, and both are marked as accessed. `long` is for 64-bit code, `db` for 32 bits.
abbrev flat_ring3 : ℕ → ℕ → ℕ → Segment
flat_ring3 kind long db = record {
  base = 0;
  limit = 2 ^ 20 - 1;
  kind = kind;
  s = 1;
  dpl = 3;
  present = 1;
  avl = 0;
  long = long;
  db = db;
  granularity = 1;
}

-- The fields of a segment at their places in the 64 bits.
abbrev descriptor : Segment → ℕ
descriptor g = or_fields 16 (g.limit % 2 ^ 16) (behind g)

-- 512 descriptors: a flat 64-bit code segment at index 6 and a flat data segment at index 5, both of
-- ring 3, and no segment elsewhere.
abbrev pub user_gdt : List ℕ
user_gdt =
    replicate 5 0
    ++ (descriptor (flat_ring3 3 0 1) ∷ descriptor (flat_ring3 11 1 0) ∷ replicate 505 0)

-- The table as `dump_gdt` writes it.
abbrev pub written_gdt : List ℕ
written_gdt =
    set (set zero_gdt 6 (gdt_entry_init (desc_code64 bor desc_user) 0 0xfffff)) 5
      (gdt_entry_init (desc_data64 bor desc_user) 0 0xfffff)

written_gdt-eq-user_gdt : written_gdt ≡ user_gdt
unfolding zero_gdt gdt_entry_init or_fields
written_gdt-eq-user_gdt = refl

equal_when_tested : (a b : ℕ) → not (a == b) ≡ false → a ≡ b
equal_when_tested a b h = ground arith

either : (a b c : ℕ) → (not (a == b) && not (a == c)) ≡ false → (a ≡ b) ⊎ (a ≡ c)
either a b c h = ground arith

module _ (H : Host) (V : View H) (memory : HasMemory H V) (uc : ℕ) where
  pub length-written_gdt : length (words_bytes 8 written_gdt) ≡ pb_gdt_size
  unfolding zero_gdt
  length-written_gdt = length-words_bytes 8 written_gdt

  -- Where `dump_gdt` returns, the selectors of the snapshot are ones that it accepts, and the table
  -- in the engine is a flat data segment at index 5 and a flat 64-bit code segment at index 6, both
  -- of ring 3 by the fields that the processor reads, and zeros, in memory that can only be read.
  pub dump_gdt-user_gdt :
      (s : X8664Regs) (w w' : H.World) (result k : ℕ)
      → dump_gdt H uc s w ≡ returned result w'
      → k < pb_gdt_size
      → IsUserSelectors s
        × (V.byte uc (pb_gdt_addr + k) w' ≡ get_or (words_bytes 8 user_gdt) k 0)
        × (V.perms uc (pb_gdt_addr + k) w' ≡ some H.uc_prot_read)
  unfolding dump_gdt
  dump_gdt-user_gdt s w w' result k h lt =
      let x = pb_gdt_addr + k in
      let inner : inside pb_gdt_addr pb_gdt_size x ≡ true = ground arith in
      let index : x - pb_gdt_addr ≡ k = omega arith in
      let (u1, mapped, h1) = pb_uc_check_passed _ w _ h in
      let (global, h2) = fatal_if-eq_returned _ u1 _ h1 in
      let (code, h3) = fatal_if-eq_returned _ u1 _ h2 in
      let (stack, h4) = fatal_if-eq_returned _ u1 _ h3 in
      let (data_ok, h5) = fatal_if-eq_returned _ u1 _ h4 in
      let (extra, h6) = fatal_if-eq_returned _ u1 _ h5 in
      let (u2, written, h7) = pb_uc_check_passed _ u1 _ h6 in
      let (u3, protected, h8) = pb_uc_check_passed _ u2 _ h7 in
      let (u4, loaded, h9) = pb_uc_check_passed _ u3 _ h8 in
      let kept = memory.gdtr_keeps uc _ x u3 u4 loaded in
      let same : w' ≡ u4 = cc in
      (
        record {
          global = global;
          code_segment = equal_when_tested _ _ code;
          stack_segment = equal_when_tested _ _ stack;
          data_segment = either _ _ _ data_ok;
          extra_segment = either _ _ _ extra;
        },
        ap (V.byte uc x) same
            ∙ kept.byte_kept
            ∙ memory.protect_byte uc _ _ _ x u2 u3 protected
            ∙ memory.write_byte uc _ _ x u1 u2 written
            ∙ rw (length-written_gdt, if◌then◌else◌, inner, index)
                (ap (λ gdt. get_or (words_bytes 8 gdt) k 0) written_gdt-eq-user_gdt),
        ap (V.perms uc x) same
            ∙ kept.perms_kept
            ∙ memory.protect_perms uc _ _ _ x u2 u3 protected
            ∙ rw (if◌then◌else◌, inner),
      )
