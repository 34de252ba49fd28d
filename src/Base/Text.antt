-- ===== src/Base/Text.antt =====
-- C strings as the bytes of a buffer.
use mathlib.Core.Path.{◌≡◌, refl}
use mathlib.Core.Bool.{Bool, true, false, ◌&&◌}
use mathlib.Core.List.{List, [], ◌∷◌}
use Prim.Native.Nat.{ℕ}
use native.Mathlib.Omega.{arith}
use process_bridge.Base.Tests.{◌==◌, if◌then◌else◌}

-- The text in a buffer, up to its zero.
unfoldable pub c_string : List ℕ → List ℕ
c_string [] = []
c_string (b ∷ bytes) = let rest = c_string bytes in if b == 0 then [] else b ∷ rest

unfoldable pub same_text : List ℕ → List ℕ → Bool
same_text [] [] = true
same_text (a ∷ left) (b ∷ right) = a == b && same_text left right
same_text _ _ = false

-- `same_text` decides equality.
pub same_text→eq : (a b : List ℕ) → same_text a b ≡ true → a ≡ b
unfolding same_text
same_text→eq [] [] h = refl
same_text→eq [] (b ∷ right) h = cc
same_text→eq (a ∷ left) [] h = cc
same_text→eq (a ∷ left) (b ∷ right) h =
    let head : a ≡ b = ground arith in
    let tail = same_text→eq left right (ground arith) in λ i. head i ∷ tail i

pub same_text_refl : (a : List ℕ) → same_text a a ≡ true
unfolding same_text
same_text_refl [] = refl
same_text_refl (a ∷ left) = ground (arith, same_text_refl left)
