-- ===== src/Base/Bytes.antt =====
-- Words in memory: little-endian bytes, and structs as bytes.
use process_bridge.Base.Lists.{length, take, drop, length-append}
use Prim.Native.Nat.{ℕ, zero, suc, ◌+◌, ◌*◌, ◌/◌, ◌%◌, ◌^◌, ◌<◌}
use mathlib.Core.Path.{◌≡◌, refl, ap, ◌∙◌}
use mathlib.Core.List.{List, [], ◌∷◌, ◌++◌}
use native.Mathlib.Nat.{pow-suc}
use native.Mathlib.Omega.{arith}

-- The `n` bytes of a word, lowest first.
unfoldable pub le_bytes : ℕ → ℕ → List ℕ
le_bytes zero v = []
le_bytes (suc n) v = v % 256 ∷ le_bytes n (v / 256)

unfoldable pub le_value : List ℕ → ℕ
le_value [] = 0
le_value (b ∷ bs) = b + 256 * le_value bs

pub length-le_bytes : (n v : ℕ) → length (le_bytes n v) ≡ n
unfolding le_bytes
length-le_bytes zero v = refl
length-le_bytes (suc n) v = ap suc (length-le_bytes n (v / 256))

div_fits : (n v : ℕ) → v < 256 ^ suc n → v / 256 < 256 ^ n
div_fits n v h = omega (arith, pow-suc 256 n)

pub le_value-le_bytes : (n v : ℕ) → v < 256 ^ n → le_value (le_bytes n v) ≡ v
unfolding le_bytes le_value
le_value-le_bytes zero v h = omega arith
le_value-le_bytes (suc n) v h = omega (arith, le_value-le_bytes n (v / 256) (div_fits n v h))

-- A struct of words of `w` bytes each, with no padding.
unfoldable pub words_bytes : ℕ → List ℕ → List ℕ
words_bytes w [] = []
words_bytes w (v ∷ vs) = le_bytes w v ++ words_bytes w vs

-- The word of `w` bytes at an offset.
unfoldable pub word_at : ℕ → ℕ → List ℕ → ℕ
word_at w offset bytes = le_value (take w (drop offset bytes))

pub length-words_bytes : (w : ℕ) (vs : List ℕ) → length (words_bytes w vs) ≡ w * length vs
unfolding words_bytes
length-words_bytes w [] = omega arith
length-words_bytes w (v ∷ vs) =
    length-append (le_bytes w v) (words_bytes w vs)
    ∙ omega (arith, length-le_bytes w v, length-words_bytes w vs)

-- Each number fits `w` bytes.
abbrev pub Fit : ℕ → List ℕ → Type 0
Fit w [] = Unit
Fit w (v ∷ vs) = (v < 256 ^ w) × Fit w vs
