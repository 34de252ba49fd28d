-- ===== src/Log/Levels.antt =====
-- The names of the levels, in utilities/log/src/log.c.
use process_bridge.Base.{
  [], suc, ◌∷◌, zero, List, ℕ, map, some, ◌≡◌, false, ◌↔◌, true, Bool-cases, ◌<◌, inl, ◌⊎◌, ap, inr,
  ◌∙◌, Bool, sym, if◌then◌else◌, arith, ◌||◌, refl, none,
}
use process_bridge.Log.{
  to_lower, same_folded, parse_level, level_name, log_level_warn, info_name, warning_name,
  debug_name, warn_name, log_level_debug, log_level_info, error_name, log_level_error,
}

-- `same_folded` decides the equality of texts in lower case.
same_folded→eq : (a b : List ℕ) → same_folded a b ≡ true → map to_lower a ≡ map to_lower b
unfolding same_folded
same_folded→eq [] [] h = refl
same_folded→eq [] (d ∷ right) h = cc
same_folded→eq (c ∷ left) [] h = cc
same_folded→eq (c ∷ left) (d ∷ right) h =
    let head : to_lower c ≡ to_lower d = ground arith in
    let tail = same_folded→eq left right (ground arith) in λ i. head i ∷ tail i

eq→same_folded : (a b : List ℕ) → map to_lower a ≡ map to_lower b → same_folded a b ≡ true
unfolding same_folded
eq→same_folded [] [] h = refl
eq→same_folded [] (d ∷ right) h = cc
eq→same_folded (c ∷ left) [] h = cc
eq→same_folded (c ∷ left) (d ∷ right) h =
    let same = eq→same_folded left right cc in
    let head : to_lower c ≡ to_lower d = cc in ground (arith, same, head)

-- A name is spelled as another where they differ in the case of letters alone.
abbrev pub IsSpelled : List ℕ → List ℕ → Type 0
IsSpelled a b = map to_lower a ≡ map to_lower b

-- Where two texts are spelled alike, both or neither are a third.
same_folded_alike : (a b c : List ℕ) → IsSpelled a b → same_folded a c ≡ same_folded b c
same_folded_alike a b c h = elim (Bool-cases (same_folded a c)) [
  | inl same ↦ same ∙ sym (eq→same_folded b c (sym h ∙ same_folded→eq a c same))
  | inr off ↦ elim (Bool-cases (same_folded b c)) [
    | inl same ↦ eq→same_folded a c (h ∙ same_folded→eq b c same) ∙ sym same
    | inr off' ↦ off ∙ sym off'
  ]
]

parse_level_alike : (a b : List ℕ) → IsSpelled a b → parse_level (some a) ≡ parse_level (some b)
unfolding parse_level
parse_level_alike a b h =
    let alike : (c : List ℕ) → same_folded a c ≡ same_folded b c = λ c. same_folded_alike a b c h in
    rw (alike debug_name, alike info_name, alike warn_name, alike warning_name, alike error_name)
      refl

-- The test that gave the level.
test_passed :
    (d i w v e : Bool) (level : ℕ)
    → (if d
        then some log_level_debug
        else if i
        then some log_level_info
        else if w || v
        then some log_level_warn
        else if e
        then some log_level_error
        else none)
      ≡ some level
    → ((d ≡ true) × (level ≡ 0))
      ⊎ (((i ≡ true) × (level ≡ 1))
          ⊎ (((w ≡ true) × (level ≡ 2))
              ⊎ (((v ≡ true) × (level ≡ 2)) ⊎ ((e ≡ true) × (level ≡ 3)))))
test_passed true i w v e level h = inl (refl, cc)
test_passed false true w v e level h = inr (inl (refl, cc))
test_passed false false true v e level h = inr (inr (inl (refl, cc)))
test_passed false false false true e level h = inr (inr (inr (inl (refl, cc))))
test_passed false false false false true level h = inr (inr (inr (inr (refl, cc))))
test_passed false false false false false level h = cc

level_read :
    (name : List ℕ) (level : ℕ)
    → level < 4
    → IsSpelled name (level_name level)
    → parse_level (some name) ≡ some level
unfolding parse_level level_name same_folded to_lower
level_read name zero below h = parse_level_alike name debug_name h
level_read name (suc zero) below h = parse_level_alike name info_name h
level_read name (suc (suc zero)) below h = parse_level_alike name warn_name h
level_read name (suc (suc (suc zero))) below h = parse_level_alike name error_name h
level_read name (suc (suc (suc (suc level)))) below h = absurd (omega arith)

pub read_level_name :
    (name : List ℕ) (level : ℕ)
    → parse_level (some name) ≡ some level
    → (level < 4)
      × (IsSpelled name (level_name level)
          ⊎ ((level ≡ log_level_warn) × IsSpelled name warning_name))
unfolding parse_level level_name
read_level_name name level h =
    let spelled : (other : List ℕ) → same_folded name other ≡ true → IsSpelled name other =
      λ other same. same_folded→eq name other same in
    elim (test_passed (same_folded name debug_name) (same_folded name info_name)
      (same_folded name warn_name) (same_folded name warning_name) (same_folded name error_name)
      level h) [
        | inl (same, is) ↦ rw is (omega arith, inl (spelled debug_name same))
        | inr (inl (same, is)) ↦ rw is (omega arith, inl (spelled info_name same))
        | inr (inr (inl (same, is))) ↦ rw is (omega arith, inl (spelled warn_name same))
        | inr (inr (inr (inl (same, is)))) ↦
            rw is (omega arith, inr (refl, spelled warning_name same))
        | inr (inr (inr (inr (same, is)))) ↦ rw is (omega arith, inl (spelled error_name same))
      ]

-- In upper and lower case alike, `parse_level` reads a level by its own name or, for the warnings, by
-- "WARNING", and no other level than the four: a text gives a level if and only if it is spelled so.
pub parse_level-IsSpelled :
    (name : List ℕ) (level : ℕ)
    → (parse_level (some name) ≡ some level) ↔ (
        (level < 4)
        × (IsSpelled name (level_name level)
            ⊎ ((level ≡ log_level_warn) × IsSpelled name warning_name)))
unfolding parse_level same_folded to_lower
parse_level-IsSpelled name level = (
  read_level_name name level,
  λ read. elim read.1 [
    | inl own ↦ level_read name level read.0 own
    | inr (is, other) ↦ parse_level_alike name warning_name other ∙ ap some (sym is)
  ],
)
