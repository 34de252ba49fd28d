-- ===== src/Loader/I386/Bounds.antt =====
-- Which selectors and entries make the i386 loader write outside of the table of descriptors.
use process_bridge.Base.{
  ◌↔◌, ◌∷◌, [], out_of_fuel, undefined, refl, ◌≡◌, ℕ, ◌<◌, All, List, returned, IsDefined, ◌⊎◌, Run,
  and_then-IsDefined, returned-IsDefined, ltb, exited, true, bit_or, Bool-cases, arith,
  fatal_if-IsDefined, ◌==◌, ◌||◌, inl, inr, false, if◌then◌else◌, set, exited-IsDefined, defining,
  Outcome, and_then, and_then-eq_undefined, Bool, fatal_if, and_then-undefined,
}
use process_bridge.Loader.Host.{Host}
use process_bridge.Loader.I386.{dump_gdt, gdt_store, store_tls, data_desc_for}
use process_bridge.Loader.X8664.{zero_gdt, in_ldt, table_index}
use process_bridge.Common.UserDesc.{UserDesc}
use process_bridge.Loader.Check.{pb_uc_check, pb_uc_check-IsDefined, pb_uc_check-eq_returned}
use process_bridge.Common.I386State.{I386State}
use process_bridge.Loader.Gdt.{
  gdt_entry_init, desc_data64, desc_data32, desc_code32, desc_user, ◌bor◌, pb_gdt_addr, pb_gdt_size,
}

pub record IsTls (d : UserDesc) : Type 0 where
  pub number_inside : d.entry_number < 512

-- The indices that the state names are inside of the table.
pub record IsInsideGdt (s : I386State) : Type 0 where
  pub stack_inside : table_index s.regs.xss < 512
  pub tls_inside : All IsTls s.tls

module _ {W : Type 0} where
  gdt_store-IsDefined :
      (index desc : ℕ) (gdt : List ℕ) (w : W) → index < 512 → IsDefined (gdt_store index desc gdt w)
  unfolding gdt_store
  gdt_store-IsDefined index desc gdt w h =
      let inner : ltb index 512 ≡ true = ground arith in
      rw (if◌then◌else◌, inner) (returned-IsDefined (set gdt index desc) w)

  store_tls-IsDefined :
      (tls : List UserDesc) (gdt : List ℕ) (w : W) → All IsTls tls → IsDefined (store_tls tls gdt w)
  unfolding store_tls
  store_tls-IsDefined [] gdt w h = returned-IsDefined gdt w
  store_tls-IsDefined (d ∷ tls) gdt w h =
      and_then-IsDefined (gdt_store d.entry_number _ gdt w) _
        (gdt_store-IsDefined d.entry_number _ gdt w h.0.number_inside)
        λ gdt' w'. store_tls-IsDefined tls gdt' w' h.1

-- An entry is outside, or all are inside.
outside_or_All :
    {W : Type 0} (tls : List UserDesc)
    → All IsTls tls ⊎ ((gdt : List ℕ) (w : W) → store_tls tls gdt w ≡ undefined)
unfolding store_tls gdt_store
outside_or_All [] = inl tt
outside_or_All (d ∷ tls) = elim (Bool-cases (ltb d.entry_number 512)) [
  | inr outer ↦ inr λ gdt w. rw (if◌then◌else◌, outer) refl
  | inl inner ↦ elim (outside_or_All tls) [
    | inl all ↦ inl (record { number_inside = ground arith }, all)
    | inr later ↦ inr λ gdt w. rw (if◌then◌else◌, inner) (later _ w)
  ]
]

and_then-IsDefined_at :
    {W A B : Type 0} (o : Outcome W A) (f : A → Run W B)
    → IsDefined o
    → ((a : A) (w : W) → o ≡ returned a w → IsDefined (f a w))
    → IsDefined (and_then o f)
and_then-IsDefined_at (returned a w) f h k = k a w refl
and_then-IsDefined_at (exited c w) f h k = exited-IsDefined c w
and_then-IsDefined_at undefined f h k = absurd (h.defined refl)
and_then-IsDefined_at out_of_fuel f h k = record { defined = λ e. cc }

module _ {W : Type 0} (cs : ℕ) (w : W) where
  -- The two indices of a code segment that `data_desc_for` accepts are small.
  data_desc_for-eq_returned : (desc : ℕ) (w' : W) → data_desc_for cs w ≡ returned desc w' → cs < 512
  unfolding data_desc_for
  data_desc_for-eq_returned desc w' h = elim (Bool-cases (cs == 4)) [
    | inl compat ↦ ground arith
    | inr other ↦ elim (Bool-cases (cs == 14)) [
      | inl native ↦ ground arith
      | inr unknown ↦ cc (rw (if◌then◌else◌, other, unknown) at h)
    ]
  ]

  data_desc_for-IsDefined : IsDefined (data_desc_for cs w)
  unfolding data_desc_for
  data_desc_for-IsDefined = elim (Bool-cases (cs == 4)) [
    | inl compat ↦ rw (if◌then◌else◌, compat) (returned-IsDefined _ w)
    | inr other ↦ elim (Bool-cases (cs == 14)) [
      | inl native ↦ rw (if◌then◌else◌, other, native) (returned-IsDefined _ w)
      | inr unknown ↦ rw (if◌then◌else◌, other, unknown) (exited-IsDefined 1 w)
    ]
  ]

module _ {W : Type 0} where
  fatal_if-passed :
      (bad : Bool) (u v : W) {r : Unit {0}} → fatal_if bad u ≡ returned r v → bad ≡ false
  fatal_if-passed true u v h = cc
  fatal_if-passed false u v h = refl

  data_desc_for-known :
      (cs : ℕ) (w : W) {desc : ℕ} {w' : W}
      → data_desc_for cs w ≡ returned desc w'
      → (cs ≡ 4) ⊎ (cs ≡ 14)
  unfolding data_desc_for
  data_desc_for-known cs w h = elim (Bool-cases (cs == 4)) [
    | inl compat ↦ inl (ground arith)
    | inr other ↦ elim (Bool-cases (cs == 14)) [
      | inl native ↦ inr (ground arith)
      | inr unknown ↦ cc (rw (if◌then◌else◌, other, unknown) at h)
    ]
  ]

  data_desc_for_works :
      (cs : ℕ) (w : W) → (cs ≡ 4) ⊎ (cs ≡ 14) → (desc : ℕ) × (data_desc_for cs w ≡ returned desc w)
  unfolding data_desc_for
  data_desc_for_works cs w (inl compat) =
      (gdt_entry_init (desc_data64 bor desc_user) 0 0xfffff, rw (compat, if◌then◌else◌) refl)
  data_desc_for_works cs w (inr native) =
      (gdt_entry_init (desc_data32 bor desc_user) 0 0xfffff, rw (native, if◌then◌else◌) refl)

known_inside : (cs : ℕ) → (cs ≡ 4) ⊎ (cs ≡ 14) → ltb cs 512 ≡ true
known_inside cs (inl compat) = ground arith
known_inside cs (inr native) = ground arith

-- The snapshot passes the tests of `dump_gdt`, and names a descriptor outside of the table.
pub record IsOverrun (H : Host) (uc : ℕ) (s : I386State) (w : H.World) : Type 0 where
  pub mapped_world : H.World
  pub mapped :
      H.uc_mem_map uc pb_gdt_addr pb_gdt_size (bit_or H.uc_prot_read H.uc_prot_write) w
      ≡ (0, mapped_world)
  pub global :
      (in_ldt s.regs.xcs
        || in_ldt s.regs.xds
        || in_ldt s.regs.xes
        || in_ldt s.regs.xfs
        || in_ldt s.regs.xgs
        || in_ldt s.regs.xss)
      ≡ false
  pub code_known : (table_index s.regs.xcs ≡ 4) ⊎ (table_index s.regs.xcs ≡ 14)
  pub outside : ¬ IsInsideGdt s

module _ (H : Host) (uc : ℕ) where
  -- With the stack selector and the entries of thread-local storage inside of the table, the i386
  -- `dump_gdt` makes no access outside of it, whatever the other registers are.
  pub dump_gdt-IsDefined :
      (s : I386State) (w : H.World) → IsInsideGdt s → IsDefined (dump_gdt H uc s w)
  unfolding dump_gdt
  dump_gdt-IsDefined s w h = and_then-IsDefined _ _ (pb_uc_check-IsDefined _ w) λ _ u.
      and_then-IsDefined _ _ (fatal_if-IsDefined _ u) λ _ u'.
        and_then-IsDefined_at (data_desc_for (table_index s.regs.xcs) u') _
          (data_desc_for-IsDefined (table_index s.regs.xcs) u')
          λ desc v found.
            let code_inside = data_desc_for-eq_returned (table_index s.regs.xcs) u' desc v found in
            search
              (
                defining, gdt_store-IsDefined, store_tls-IsDefined, pb_uc_check-IsDefined,
                code_inside, h.stack_inside, h.tls_inside,
              )
              depth 12

  dump_gdt-IsOverrun :
      (s : I386State) (w : H.World) → dump_gdt H uc s w ≡ undefined → IsOverrun H uc s w
  unfolding dump_gdt
  dump_gdt-IsOverrun s w h =
      let (_, u, mapped, h1) = and_then-eq_undefined _ _ (pb_uc_check-IsDefined _ w) h in
      let (_, v, local, h2) = and_then-eq_undefined _ _ (fatal_if-IsDefined _ u) h1 in
      let (_, _, known, _) = and_then-eq_undefined _ _ (data_desc_for-IsDefined _ v) h2 in
      record {
        mapped_world = u;
        mapped = pb_uc_check-eq_returned _ w u mapped;
        global = fatal_if-passed _ u v local;
        code_known = data_desc_for-known _ v known;
        outside = λ inside. (dump_gdt-IsDefined s w inside).defined h;
      }

  dump_gdt-undefined :
      (s : I386State) (w : H.World) → IsOverrun H uc s w → dump_gdt H uc s w ≡ undefined
  unfolding dump_gdt pb_uc_check gdt_store
  dump_gdt-undefined s w h =
      let (desc, described) =
        data_desc_for_works (table_index s.regs.xcs) h.mapped_world h.code_known in
      let code_desc = gdt_entry_init (desc_code32 bor desc_user) 0 0xfffff in
      let gdt =
        set (set zero_gdt (table_index s.regs.xcs) code_desc) (table_index s.regs.xss) desc in
      let code_inside = known_inside (table_index s.regs.xcs) h.code_known in
      rw (h.mapped) (
        rw (h.global) (
          rw (described) (
            rw (if◌then◌else◌, code_inside)
              (elim (Bool-cases (ltb (table_index s.regs.xss) 512)) [
                | inr outer ↦ rw (outer) refl
                | inl inner ↦ elim (outside_or_All {W = H.World} s.tls) [
                  | inr out ↦ rw (inner) (
                      and_then-undefined (store_tls s.tls gdt h.mapped_world) _
                        (out gdt h.mapped_world))
                  | inl all ↦
                      absurd (h.outside (record { stack_inside = ground arith; tls_inside = all }))
                ]
              ]))))

  -- The i386 `dump_gdt` makes an access outside of its table exactly where the table is mapped, no
  -- selector names the local table, the code selector is one of the two that the loader knows, and
  -- the index of the stack selector or an entry number of thread-local storage is not below 512.
  pub dump_gdt-eq_undefined :
      (s : I386State) (w : H.World) → (dump_gdt H uc s w ≡ undefined) ↔ IsOverrun H uc s w
  dump_gdt-eq_undefined s w = (dump_gdt-IsOverrun s w, dump_gdt-undefined s w)
