-- ===== src/Snapshotter/Capture/Areas.antt =====
-- The descriptors of thread-local storage that are captured.
use process_bridge.Common.I386.{I386Regs}
use process_bridge.Base.{
  ◌≤◌, ◌<◌, ℕ, some, List, [], ◌∷◌, ◌≡◌, returned, length, ◌+◌, Option, none, ◌∙◌, suc, arith, set,
  refl, ◌-◌, or_fatal-eq_returned, subst, >>-eq_returned, sym, leb, ◌&&◌, ltb, true, if◌then◌else◌,
  or_fatal_passes, ap, and_then, pure,
}
use process_bridge.Common.UserDesc.{UserDesc}
use process_bridge.Snapshotter.Capture.I386.{
  create_snapshot, Tracer32, thread_areas, areas_from, gdt_entry_tls_min_true_i386,
  gdt_entry_tls_min_comp_mode, tls_store,
}
use process_bridge.Common.I386State.{I386State}

-- What the kernel has for a thread, which a request only reads.
pub record HasAreas {W : Type 0} (T : Tracer32 W) (area : ℕ → ℕ → W → UserDesc) : Type 0 where
  pub answered :
      (pid i : ℕ) (d : UserDesc) (w : W) → (T.get_thread_area pid i w).0 ≡ some d → d ≡ area pid i w
  pub kept : (pid i j : ℕ) (w : W) → area pid i (T.get_thread_area pid j w).1 ≡ area pid i w
  pub regs_keep : (pid i : ℕ) (w : W) → area pid i (T.get_regs pid w).1 ≡ area pid i w

three : (tls : List UserDesc) → length tls ≡ 3 → (a b c : UserDesc) × (tls ≡ a ∷ b ∷ c ∷ [])
three [] h = absurd (omega arith)
three (a ∷ []) h = absurd (omega arith)
three (a ∷ b ∷ []) h = absurd (omega arith)
three (a ∷ b ∷ c ∷ []) h = (a, b, c, refl)
three (a ∷ b ∷ c ∷ d ∷ tls) h = absurd (omega arith)

-- The index of the first descriptor: that of an i386 kernel, or of compatibility mode.
abbrev pub first_index : Option UserDesc → ℕ
first_index (some d) = gdt_entry_tls_min_true_i386
first_index none = gdt_entry_tls_min_comp_mode

module _ {W : Type 0} (T : Tracer32 W) (area : ℕ → ℕ → W → UserDesc) (areas : HasAreas T area)
    (pid : ℕ) where
  -- One round of the loop.
  one_area :
      (rounds i m : ℕ) (tls got : List UserDesc) (w w' : W)
      → (leb m i && ltb (i - m) 3) ≡ true
      → thread_areas T pid (suc rounds) i m tls w ≡ returned got w'
      → (v : W) × ((j : ℕ) → area pid j v ≡ area pid j w)
        × (thread_areas T pid rounds (i + 1) m (set tls (i - m) (area pid i w)) v ≡ returned got w')
  unfolding thread_areas tls_store
  one_area rounds i m tls got w w' inner h =
      let (d, answer, stored) = or_fatal-eq_returned (T.get_thread_area pid i) w _ h in
      let rest = rw (if◌then◌else◌, inner) at stored in
      let v = (T.get_thread_area pid i w).1 in
      let same = areas.answered pid i d w answer in
      (
        v,
        λ j. areas.kept pid j i w,
        subst
            (λ (e : UserDesc).
              thread_areas T pid rounds (i + 1) m (set tls (i - m) e) v ≡ returned got w')
            same rest,
      )

  areas_from_lem :
      (first : Option UserDesc) (a b c : UserDesc) (got : List UserDesc) (w w' : W)
      → ((d : UserDesc) → first ≡ some d → d ≡ area pid 6 w)
      → areas_from T pid first (a ∷ b ∷ c ∷ []) w ≡ returned got w'
      → let m = first_index first in
        got ≡ area pid m w ∷ area pid (m + 1) w ∷ area pid (m + 2) w ∷ []
  unfolding areas_from thread_areas tls_store
  areas_from_lem (some d) a b c got w w' first h =
      let (u, keep_u, h1) = one_area 1 7 6 (d ∷ b ∷ c ∷ []) got w w' refl h in
      let (v, keep_v, h2) = one_area 0 8 6 (d ∷ area pid 7 w ∷ c ∷ []) got u w' refl h1 in
      let found : got ≡ d ∷ area pid 7 w ∷ area pid 8 u ∷ [] = cc in
      found ∙ (λ i. first d refl i ∷ area pid 7 w ∷ keep_u 8 i ∷ [])
  areas_from_lem none a b c got w w' first h =
      let (u, keep_u, h1) = one_area 2 12 12 (a ∷ b ∷ c ∷ []) got w w' refl h in
      let (v, keep_v, h2) = one_area 1 13 12 (area pid 12 w ∷ b ∷ c ∷ []) got u w' refl h1 in
      let (t, keep_t, h3) =
        one_area 0 14 12 (area pid 12 w ∷ area pid 13 u ∷ c ∷ []) got v w' refl h2 in
      let found : got ≡ area pid 12 w ∷ area pid 13 u ∷ area pid 14 v ∷ [] = cc in
      found ∙ (λ i. area pid 12 w ∷ keep_u 13 i ∷ (keep_v 14 ∙ keep_u 14) i ∷ [])

  -- One round whose request is answered.
  round_works :
      (rounds i m : ℕ) (d : UserDesc) (tls : List UserDesc) (w : W)
      → (leb m i && ltb (i - m) 3) ≡ true
      → (T.get_thread_area pid i w).0 ≡ some d
      → thread_areas T pid (suc rounds) i m tls w
        ≡ thread_areas T pid rounds (i + 1) m (set tls (i - m) d) (T.get_thread_area pid i w).1
  unfolding thread_areas tls_store
  round_works rounds i m d tls w inner answer =
      or_fatal_passes (T.get_thread_area pid i) w _ d answer ∙ rw (if◌then◌else◌, inner) refl

  -- The loop returns where each of its requests is answered.
  areas_from_works :
      (first : Option UserDesc) (a b c : UserDesc) (w : W)
      → ((i : ℕ) (v : W)
          → first_index first ≤ i
          → i < first_index first + 3
          → (d : UserDesc) × ((T.get_thread_area pid i v).0 ≡ some d))
      → (got : List UserDesc) × (w' : W) × (areas_from T pid first (a ∷ b ∷ c ∷ []) w
          ≡ returned got w')
  unfolding areas_from thread_areas tls_store
  areas_from_works (some d) a b c w answers =
      let w1 = (T.get_thread_area pid 7 w).1 in
      let w2 = (T.get_thread_area pid 8 w1).1 in
      let (d1, e1) = answers 7 w (omega arith) (omega arith) in
      let (d2, e2) = answers 8 w1 (omega arith) (omega arith) in
      (
        d ∷ d1 ∷ d2 ∷ [],
        w2,
        round_works 1 7 6 d1 (d ∷ b ∷ c ∷ []) w refl e1
            ∙ round_works 0 8 6 d2 (d ∷ d1 ∷ c ∷ []) w1 refl e2,
      )
  areas_from_works none a b c w answers =
      let w1 = (T.get_thread_area pid 12 w).1 in
      let w2 = (T.get_thread_area pid 13 w1).1 in
      let w3 = (T.get_thread_area pid 14 w2).1 in
      let (d1, e1) = answers 12 w (omega arith) (omega arith) in
      let (d2, e2) = answers 13 w1 (omega arith) (omega arith) in
      let (d3, e3) = answers 14 w2 (omega arith) (omega arith) in
      (
        d1 ∷ d2 ∷ d3 ∷ [],
        w3,
        round_works 2 12 12 d1 (a ∷ b ∷ c ∷ []) w refl e1
            ∙ round_works 1 13 12 d2 (d1 ∷ b ∷ c ∷ []) w1 refl e2
            ∙ round_works 0 14 12 d3 (d1 ∷ d2 ∷ c ∷ []) w2 refl e3,
      )

  -- A capture that returns has the three descriptors.
  pub create_snapshot-eq_returned :
      (uninitialised : List UserDesc) (s : I386State) (w w' : W)
      → length uninitialised ≡ 3
      → create_snapshot T pid uninitialised w ≡ returned s w'
      → let m = first_index (T.get_thread_area pid 6 (T.get_regs pid w).1).0 in
        s.tls ≡ area pid m w ∷ area pid (m + 1) w ∷ area pid (m + 2) w ∷ []
  unfolding create_snapshot
  create_snapshot-eq_returned uninitialised s w w' size h =
      let (a, b, c, is_three) = three uninitialised size in
      let (regs, _, h1) = or_fatal-eq_returned (T.get_regs pid) w _ h in
      let u = (T.get_regs pid w).1 in
      let first = T.get_thread_area pid 6 u in
      let (tls, v, looped, h2) =
        >>-eq_returned (areas_from T pid first.0 uninitialised first.1) _ h1 in
      let made : tls ≡ s.tls = ground arith in
      let m = first_index first.0 in
      let answer : (d : UserDesc) → first.0 ≡ some d → d ≡ area pid 6 first.1 =
        λ d e. areas.answered pid 6 d u e ∙ sym (areas.kept pid 6 6 u) in
      let known = areas_from_lem first.0 a b c tls first.1 v answer (rw is_three at looped) in
      let keep : (j : ℕ) → area pid j first.1 ≡ area pid j w =
        λ j. areas.kept pid j 6 u ∙ areas.regs_keep pid j w in
      sym made ∙ known ∙ (λ i. keep m i ∷ keep (m + 1) i ∷ keep (m + 2) i ∷ [])

  -- Where the registers are read and the kernel answers for the three indices from the first on,
  -- which is 6 if it answers for that and 12 if it does not, and its requests only read, the i386
  -- `create_snapshot` returns, with no store outside of `tls`: whatever was in the three places
  -- before, the state has these registers, and the three descriptors of the thread in their order.
  pub create_snapshot-areas :
      (uninitialised : List UserDesc) (regs : I386Regs) (w : W)
      → length uninitialised ≡ 3
      → (T.get_regs pid w).0 ≡ some regs
      → let m = first_index (T.get_thread_area pid 6 (T.get_regs pid w).1).0 in
        ((i : ℕ) (v : W)
          → m ≤ i
          → i < m + 3
          → (d : UserDesc) × ((T.get_thread_area pid i v).0 ≡ some d))
        → (w' : W) × (create_snapshot T pid uninitialised w
            ≡ returned
                (record {
                  regs = regs;
                  tls = area pid m w ∷ area pid (m + 1) w ∷ area pid (m + 2) w ∷ [];
                })
                w')
  unfolding create_snapshot
  create_snapshot-areas uninitialised regs w size read answers =
      let (a, b, c, is_three) = three uninitialised size in
      let u = (T.get_regs pid w).1 in
      let first = T.get_thread_area pid 6 u in
      let (got, w', looped) = areas_from_works first.0 a b c first.1 answers in
      let run : create_snapshot T pid uninitialised w
          ≡ returned (record { regs = regs; tls = got }) w' =
        or_fatal_passes (T.get_regs pid) w _ regs read
        ∙ rw (is_three)
            (ap (λ o. and_then o (λ tls. pure (record { regs = regs; tls = tls }))) looped) in
      let known =
        create_snapshot-eq_returned uninitialised (record { regs = regs; tls = got }) w w' size
          run in
      (w', run ∙ (λ i. returned (record { regs = regs; tls = known i }) w'))
