-- ===== src/Loader/Gdt/Fields.antt =====
-- What the processor reads in the descriptors that the macros build.
use process_bridge.Base.{ℕ, ◌+◌, ◌*◌, ◌/◌, ◌%◌, ◌^◌, ◌<◌, ◌≡◌, List, [], ◌∷◌, arith}
use process_bridge.Base.Bits.{or_fields, sum_fields, or_fields-eq-sum_fields}

-- The fields of a segment descriptor in the Intel manual.
pub record Segment : Type 0 where
  pub base : ℕ
  pub limit : ℕ
  pub kind : ℕ
  pub s : ℕ
  pub dpl : ℕ
  pub present : ℕ
  pub avl : ℕ
  pub long : ℕ
  pub db : ℕ
  pub granularity : ℕ

-- The processor's view of a descriptor.
unfoldable pub segment : ℕ → Segment
segment d = record {
  base = d / 2 ^ 16 % 2 ^ 24 + d / 2 ^ 56 % 2 ^ 8 * 2 ^ 24;
  limit = d % 2 ^ 16 + d / 2 ^ 48 % 2 ^ 4 * 2 ^ 16;
  kind = d / 2 ^ 40 % 2 ^ 4;
  s = d / 2 ^ 44 % 2;
  dpl = d / 2 ^ 45 % 4;
  present = d / 2 ^ 47 % 2;
  avl = d / 2 ^ 52 % 2;
  long = d / 2 ^ 53 % 2;
  db = d / 2 ^ 54 % 2;
  granularity = d / 2 ^ 55 % 2;
}

-- The fields behind the low 16 bits of the limit, from bit 16 on, each with its width.
abbrev pub behind : Segment → List (ℕ × ℕ)
behind g =
    (16, g.base % 2 ^ 16)
    ∷ (8, g.base / 2 ^ 16 % 2 ^ 8)
    ∷ (4, g.kind)
    ∷ (1, g.s)
    ∷ (2, g.dpl)
    ∷ (1, g.present)
    ∷ (4, g.limit / 2 ^ 16 % 2 ^ 4)
    ∷ (1, g.avl)
    ∷ (1, g.long)
    ∷ (1, g.db)
    ∷ (1, g.granularity)
    ∷ (8, g.base / 2 ^ 24 % 2 ^ 8)
    ∷ []

-- The fields fit their widths.
pub record IsSegment (g : Segment) : Type 0 where
  pub base_fits : g.base < 2 ^ 32
  pub limit_fits : g.limit < 2 ^ 20
  pub kind_fits : g.kind < 2 ^ 4
  pub s_fits : g.s < 2
  pub dpl_fits : g.dpl < 4
  pub present_fits : g.present < 2
  pub avl_fits : g.avl < 2
  pub long_fits : g.long < 2
  pub db_fits : g.db < 2
  pub granularity_fits : g.granularity < 2

behind_sum :
    (g : Segment)
    → IsSegment g
    → or_fields 16 (g.limit % 2 ^ 16) (behind g) ≡ g.limit % 2 ^ 16 + sum_fields 16 (behind g)
behind_sum g h =
    or_fields-eq-sum_fields (behind g) 16 (g.limit % 2 ^ 16) (omega arith) (omega arith)

-- Fields put together by `|` are read back by the processor.
pub segment-or_fields :
    (g : Segment) → IsSegment g → segment (or_fields 16 (g.limit % 2 ^ 16) (behind g)) ≡ g
unfolding segment sum_fields
segment-or_fields g h = rw (behind_sum g h) (λ i. record {
  base = base_back i;
  limit = limit_back i;
  kind = kind_back i;
  s = s_back i;
  dpl = dpl_back i;
  present = present_back i;
  avl = avl_back i;
  long = long_back i;
  db = db_back i;
  granularity = granularity_back i;
})
  where
    d : ℕ
    d = g.limit % 2 ^ 16 + sum_fields 16 (behind g)

    base_back : d / 2 ^ 16 % 2 ^ 24 + d / 2 ^ 56 % 2 ^ 8 * 2 ^ 24 ≡ g.base
    base_back = omega arith

    limit_back : d % 2 ^ 16 + d / 2 ^ 48 % 2 ^ 4 * 2 ^ 16 ≡ g.limit
    limit_back = omega arith

    kind_back : d / 2 ^ 40 % 2 ^ 4 ≡ g.kind
    kind_back = omega arith

    s_back : d / 2 ^ 44 % 2 ≡ g.s
    s_back = omega arith

    dpl_back : d / 2 ^ 45 % 4 ≡ g.dpl
    dpl_back = omega arith

    present_back : d / 2 ^ 47 % 2 ≡ g.present
    present_back = omega arith

    avl_back : d / 2 ^ 52 % 2 ≡ g.avl
    avl_back = omega arith

    long_back : d / 2 ^ 53 % 2 ≡ g.long
    long_back = omega arith

    db_back : d / 2 ^ 54 % 2 ≡ g.db
    db_back = omega arith

    granularity_back : d / 2 ^ 55 % 2 ≡ g.granularity
    granularity_back = omega arith
