-- ===== src/Log/Names.antt =====
-- The name of a source file in an entry of utilities/log/src/log.c.
use process_bridge.Base.{
  [], List, ℕ, ◌≡◌, All, none, ◌≢◌, ◌⊎◌, some, ◌++◌, ◌∷◌, inl, inr, ap, Bool-cases, ◌==◌, arith,
  refl,
}
use process_bridge.Log.{after_slash, base_name}

-- No '/' stands in a text.
abbrev pub IsPlain : List ℕ → Type 0
IsPlain text = All (λ c. c ≢ 47) text

after_slash_lem :
    (file : List ℕ)
    → ((after_slash file ≡ none) × IsPlain file)
      ⊎ ((front : List ℕ) × (name : List ℕ) × (after_slash file ≡ some name)
          × (file ≡ front ++ 47 ∷ name)
          × IsPlain name)
unfolding after_slash
after_slash_lem [] = inl (refl, tt)
after_slash_lem (c ∷ file) = elim (after_slash_lem file) [
  | inr (front, name, found, split, plain) ↦
      inr (c ∷ front, name, rw (found) refl, ap (λ t. c ∷ t) split, plain)
  | inl (absent, plain) ↦ elim (Bool-cases (c == 47)) [
    | inl slash ↦
        inr ([], file, rw (absent, slash) refl, ap (λ d. d ∷ file) (ground (arith, slash)), plain)
    | inr other ↦ inl (rw (absent, other) refl, (λ e. ground (arith, other, e), plain))
  ]
]

-- The name of a file in an entry is what stands behind the last '/' of its path: it has no '/', and the
-- path is that name alone or ends in '/' and that name.
pub base_name-IsPlain :
    (file : List ℕ)
    → IsPlain (base_name file)
      × ((file ≡ base_name file) ⊎ ((front : List ℕ) × (file ≡ front ++ 47 ∷ base_name file)))
unfolding base_name
base_name-IsPlain file = elim (after_slash_lem file) [
  | inl (absent, plain) ↦ rw (base_name, absent) (plain, inl refl)
  | inr (front, name, found, split, plain) ↦ rw (base_name, found) (plain, inr (front, split))
]
