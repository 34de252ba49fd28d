-- ===== src/Loader/Engine/Memory.antt =====
-- The memory of the engine after the sections of a snapshot are loaded.
use process_bridge.Base.{
  ◌≡◌, ℕ, returned, ◌+◌, get_or, ◌<◌, List, true, some, none, arith, All, false, length, get_elem?,
  ◌∷◌, ◌∙◌, ◌-◌, if◌then◌else◌, suc, Bool-cases, inl, [], inr, zero, ap, subst, >>-eq_returned,
}
use process_bridge.Loader.Host.{Host}
use process_bridge.Loader.Engine.{View, HasMemory, inside, KeepsAt}
use process_bridge.Loader.Dump.{load_mapping, mapping_size, entry_perms}
use process_bridge.Common.Snapshot.{Section, IsSection}
use process_bridge.Common.MapsEntry.{MapsEntry}
use process_bridge.Loader.Check.{pb_uc_check, pb_uc_check-eq_returned}
use process_bridge.Loader.Dump.Sections.{load_sections, mapping_size_lem}

-- A mapping of the engine's memory: what stands at an address of it, and what it allows.
pub record HoldsAt (H : Host) (V : View H) (uc : ℕ) (s : Section) (k : ℕ) (w : H.World)
    : Type 0 where
  pub byte_there : V.byte uc (s.entry.start + k) w ≡ get_or s.content k 0
  pub perms_there : V.perms uc (s.entry.start + k) w ≡ some (entry_perms H s.entry)

module _ (H : Host) (V : View H) (memory : HasMemory H V) (uc : ℕ) where
  -- The three calls of `load_mapping` that succeed.
  pub load_mapping_calls :
      (e : MapsEntry) (content : List ℕ) (w w' : H.World)
      → load_mapping H uc e content w ≡ returned tt w'
      → (u v : H.World) × (H.uc_mem_map uc e.start (mapping_size e) H.uc_prot_write w ≡ (0, u))
        × (H.uc_mem_write uc e.start content u ≡ (0, v))
        × (H.uc_mem_protect uc e.start (mapping_size e) (entry_perms H e) v ≡ (0, w'))
  unfolding load_mapping
  load_mapping_calls e content w w' h =
      let (_, u, mapped, rest) = >>-eq_returned (pb_uc_check _ w) _ h in
      let (_, v, written, protected) = >>-eq_returned (pb_uc_check _ u) _ rest in
      (
        u,
        v,
        pb_uc_check-eq_returned _ w u mapped,
        pb_uc_check-eq_returned _ u v written,
        pb_uc_check-eq_returned _ v w' protected,
      )

  -- Loading a mapping fills it and leaves everything else as it was; its addresses were free.
  load_mapping_free :
      (s : Section) (w w' : H.World) (x : ℕ)
      → load_mapping H uc s.entry s.content w ≡ returned tt w'
      → inside s.entry.start (mapping_size s.entry) x ≡ true
      → V.perms uc x w ≡ none
  load_mapping_free s w w' x h inner =
      let (u, v, mapped, written, protected) = load_mapping_calls s.entry s.content w w' h in
      memory.map_free uc _ _ _ x w u mapped inner

  pub load_mapping_keeps :
      (s : Section) (w w' : H.World) (x : ℕ)
      → IsSection s
      → load_mapping H uc s.entry s.content w ≡ returned tt w'
      → inside s.entry.start (mapping_size s.entry) x ≡ false
      → KeepsAt H V uc x w w'
  load_mapping_keeps s w w' x good h outer =
      let (u, v, mapped, written, protected) = load_mapping_calls s.entry s.content w w' h in
      let outer_content : inside s.entry.start (length s.content) x ≡ false =
        rw (← mapping_size_lem s good) outer in
      let protected_perms = memory.protect_perms uc _ _ _ x v w' protected in
      let mapped_perms = memory.map_perms uc _ _ _ x w u mapped in
      record {
        byte_kept =
            memory.protect_byte uc _ _ _ x v w' protected
            ∙ memory.write_byte uc _ _ x u v written
            ∙ rw (if◌then◌else◌, outer_content) (memory.map_byte uc _ _ _ x w u mapped outer);
        perms_kept =
            protected_perms
            ∙ rw (if◌then◌else◌, outer)
                (memory.write_perms uc _ _ x u v written
                  ∙ mapped_perms
                  ∙ rw (if◌then◌else◌, outer));
      }

  inside_offset : (start size k : ℕ) → k < size → inside start size (start + k) ≡ true
  inside_offset start size k h = ground arith

  load_mapping_fills :
      (s : Section) (w w' : H.World) (k : ℕ)
      → IsSection s
      → load_mapping H uc s.entry s.content w ≡ returned tt w'
      → k < length s.content
      → HoldsAt H V uc s k w'
  load_mapping_fills s w w' k good h lt =
      let (u, v, mapped, written, protected) = load_mapping_calls s.entry s.content w w' h in
      let start = s.entry.start in
      let x = start + k in
      let inner_content = inside_offset start (length s.content) k lt in
      let inner : inside start (mapping_size s.entry) x ≡ true =
        rw (mapping_size_lem s good) inner_content in
      let index : x - start ≡ k = omega arith in
      record {
        byte_there =
            memory.protect_byte uc _ _ _ x v w' protected
            ∙ memory.write_byte uc _ _ x u v written
            ∙ rw (if◌then◌else◌, inner_content, index);
        perms_there = memory.protect_perms uc _ _ _ x v w' protected ∙ rw (if◌then◌else◌, inner);
      }

  -- What is mapped stays as it is while further sections are loaded.
  load_sections_keeps :
      (ss : List Section) (w w' : H.World) (x prot : ℕ)
      → All IsSection ss
      → load_sections H uc ss w ≡ returned tt w'
      → V.perms uc x w ≡ some prot
      → KeepsAt H V uc x w w'
  unfolding load_sections
  load_sections_keeps [] w w' x prot good h there =
      let same : w' ≡ w = cc in
      record { byte_kept = ap (V.byte uc x) same; perms_kept = ap (V.perms uc x) same }
  load_sections_keeps (s ∷ ss) w w' x prot good h there =
      let (_, u, first, rest) = >>-eq_returned (load_mapping H uc s.entry s.content w) _ h in
      elim (Bool-cases (inside s.entry.start (mapping_size s.entry) x)) [
        | inl inner ↦ cc (load_mapping_free s w u x first inner)
        | inr outer ↦
            let one = load_mapping_keeps s w u x good.0 first outer in
            let more = load_sections_keeps ss u w' x prot good.1 rest (one.perms_kept ∙ there) in
            record {
              byte_kept = more.byte_kept ∙ one.byte_kept;
              perms_kept = more.perms_kept ∙ one.perms_kept;
            }
      ]

  load_sections-HoldsAt_first :
      (s : Section) (ss : List Section) (w w' : H.World) (k : ℕ)
      → All IsSection (s ∷ ss)
      → load_sections H uc (s ∷ ss) w ≡ returned tt w'
      → k < length s.content
      → HoldsAt H V uc s k w'
  unfolding load_sections
  load_sections-HoldsAt_first s ss w w' k good h lt =
      let (_, u, first, rest) = >>-eq_returned (load_mapping H uc s.entry s.content w) _ h in
      let filled = load_mapping_fills s w u k good.0 first lt in
      let kept = load_sections_keeps ss u w' _ _ good.1 rest filled.perms_there in
      record {
        byte_there = kept.byte_kept ∙ filled.byte_there;
        perms_there = kept.perms_kept ∙ filled.perms_there;
      }

  -- After the sections are loaded, each address of each of them holds the byte and the
  -- permissions that the snapshot has for it.
  pub load_sections-HoldsAt :
      (ss : List Section) (w w' : H.World) (i k : ℕ) (s : Section)
      → All IsSection ss
      → load_sections H uc ss w ≡ returned tt w'
      → get_elem? ss i ≡ some s
      → k < length s.content
      → HoldsAt H V uc s k w'
  unfolding load_sections
  load_sections-HoldsAt [] w w' i k s good h at lt = cc
  load_sections-HoldsAt (t ∷ ss) w w' zero k s good h at lt =
      let same : t ≡ s = cc in
      let shorter : k < length t.content = rw same lt in
      subst (λ r. HoldsAt H V uc r k w') same
        (load_sections-HoldsAt_first t ss w w' k good h shorter)
  load_sections-HoldsAt (t ∷ ss) w w' (suc i) k s good h at lt =
      let (_, u, first, rest) = >>-eq_returned (load_mapping H uc t.entry t.content w) _ h in
      load_sections-HoldsAt ss u w' i k s good.1 rest at lt
