-- ===== src/Base/Bits.antt =====
-- The bit operations on numbers as arithmetic, at every width.
use Prim.Native.Nat.{
  digits, bit_and-bitwise, bit_or-bitwise, max, ℕ, zero, suc, ◌+◌, ◌-◌, ◌*◌, ◌/◌, ◌%◌, ◌^◌, ◌≤◌,
  ◌<◌, min, bit_and, bit_or,
}
use mathlib.Core.Path.{◌≡◌, refl, sym, ap, ◌∙◌}
use mathlib.Core.List.{List, [], ◌∷◌}
use native.Mathlib.Nat.{
  pow-suc, one-le-pow, div-div-eq-div-mul, mul_comm, div-add-mod', add-mul-mod_self_right,
  mod-eq_of_lt, mod-lt, le_trans, pow-le-pow_right,
}
use native.Mathlib.Omega.{arith}

module _ (z : ℕ → ℕ) (f : ℕ → ℕ → ℕ) where
  digits_zero : (n b : ℕ) → digits z f n 0 b ≡ z b
  digits_zero zero b = refl
  digits_zero (suc n) b = refl

  -- Any fuel from `a` on gives the digits that `a` itself gives.
  digits-eq_self : (n m a b : ℕ) → a ≤ n → a ≤ m → digits z f n a b ≡ digits z f m a b
  digits-eq_self n m zero b h k = digits_zero n b ∙ sym (digits_zero m b)
  digits-eq_self zero m (suc a) b h k = absurd (omega arith)
  digits-eq_self (suc n) zero (suc a) b h k = absurd (omega arith)
  digits-eq_self (suc n) (suc m) (suc a) b h k =
      ap (λ t. t * 2 + f (suc a % 2) (b % 2))
        (digits-eq_self n m (suc a / 2) (b / 2) (omega arith) (omega arith))

-- The lowest digit and the others.
bit_and_halves : (a b : ℕ) → bit_and a b ≡ bit_and (a / 2) (b / 2) * 2 + min (a % 2) (b % 2)
bit_and_halves zero b = omega (arith, bit_and-bitwise 0 b, bit_and-bitwise 0 (b / 2))
bit_and_halves (suc a) b =
    let same = digits-eq_self (λ _. 0) min a (suc a / 2) (suc a / 2) (b / 2) in
    omega (
      arith,
      bit_and-bitwise (suc a) b,
      bit_and-bitwise (suc a / 2) (b / 2),
      same (omega arith) (omega arith),
    )

pub bit_or_halves : (a b : ℕ) → bit_or a b ≡ bit_or (a / 2) (b / 2) * 2 + max (a % 2) (b % 2)
bit_or_halves zero b = omega (arith, bit_or-bitwise 0 b, bit_or-bitwise 0 (b / 2))
bit_or_halves (suc a) b =
    let same = digits-eq_self (λ y. y) max a (suc a / 2) (suc a / 2) (b / 2) in
    omega (
      arith,
      bit_or-bitwise (suc a) b,
      bit_or-bitwise (suc a / 2) (b / 2),
      same (omega arith) (omega arith),
    )

zero-bit_or : (b : ℕ) → bit_or 0 b ≡ b
zero-bit_or b = bit_or-bitwise 0 b

bit_and-zero_below : (n a : ℕ) → a ≤ n → bit_and a 0 ≡ 0
bit_and-zero_below zero a h = ground (arith, bit_and-bitwise 0 0)
bit_and-zero_below (suc n) a h =
    omega (arith, bit_and_halves a 0, bit_and-zero_below n (a / 2) (omega arith))

bit_and-zero : (a : ℕ) → bit_and a 0 ≡ 0
bit_and-zero a = bit_and-zero_below a a (omega arith)

double_pow : (q k : ℕ) → q * 2 ^ suc k ≡ q * 2 ^ k * 2
double_pow q k = omega (arith, ap (λ (t : ℕ). q * t) (pow-suc 2 k))

-- A field above `k` bits is added by `|` to what stands below it.
pub bit_or_above : (k r q : ℕ) → r < 2 ^ k → bit_or r (q * 2 ^ k) ≡ r + q * 2 ^ k
bit_or_above zero r q h = ground (arith, zero-bit_or q)
bit_or_above (suc k) r q h =
    ground (
      arith,
      bit_or_halves r (q * 2 ^ suc k),
      double_pow q k,
      pow-suc 2 k,
      bit_or_above k (r / 2) q,
    )

halve_shift : (x k : ℕ) → x / 2 / 2 ^ k ≡ x / 2 ^ suc k
halve_shift x k =
    div-div-eq-div-mul x 2 (2 ^ k) ∙ ap (λ (t : ℕ). x / t) (mul_comm 2 (2 ^ k) ∙ sym (pow-suc 2 k))

bit_and_shifted : (k x m : ℕ) → bit_and x (m * 2 ^ k) ≡ bit_and (x / 2 ^ k) m * 2 ^ k
bit_and_shifted zero x m = ground arith
bit_and_shifted (suc k) x m = ground (
  arith,
  bit_and_halves x (m * 2 ^ suc k),
  double_pow m k,
  bit_and_shifted k (x / 2) m,
  halve_shift x k,
  double_pow (bit_and (x / 2 ^ suc k) m) k,
)

mod_double : (x k : ℕ) → x % 2 ^ suc k ≡ x / 2 % 2 ^ k * 2 + x % 2
mod_double x k =
    let q = x / 2 / 2 ^ k in
    let r = x / 2 % 2 ^ k * 2 + x % 2 in
    let split : x ≡ r + q * 2 ^ suc k =
      omega (arith, div-add-mod' (x / 2) (2 ^ k), double_pow q k) in
    ap (λ (t : ℕ). t % 2 ^ suc k) split
    ∙ add-mul-mod_self_right r q (2 ^ suc k)
    ∙ mod-eq_of_lt (omega (arith, pow-suc 2 k, mod-lt (x / 2) (one-le-pow k 2 (omega arith))))

bit_and_low : (k x : ℕ) → bit_and x (2 ^ k - 1) ≡ x % 2 ^ k
bit_and_low zero x = ground (arith, bit_and-zero x)
bit_and_low (suc k) x = ground (
  arith,
  bit_and_halves x (2 ^ suc k - 1),
  pow-suc 2 k,
  one-le-pow k 2,
  bit_and_low k (x / 2),
  mod_double x k,
)

-- The field of `j` bits from bit `k` on, left in its place.
pub bit_and_field : (j k x : ℕ) → bit_and x ((2 ^ j - 1) * 2 ^ k) ≡ x / 2 ^ k % 2 ^ j * 2 ^ k
bit_and_field j k x =
    bit_and_shifted k x (2 ^ j - 1) ∙ ap (λ (t : ℕ). t * 2 ^ k) (bit_and_low j (x / 2 ^ k))

-- `|` of fields side by side, each with its width, from bit `pos` on.
unfoldable pub or_fields : ℕ → ℕ → List (ℕ × ℕ) → ℕ
or_fields pos acc [] = acc
or_fields pos acc ((w, q) ∷ fields) = or_fields (pos + w) (bit_or acc (q * 2 ^ pos)) fields

unfoldable pub sum_fields : ℕ → List (ℕ × ℕ) → ℕ
sum_fields pos [] = 0
sum_fields pos ((w, q) ∷ fields) = q * 2 ^ pos + sum_fields (pos + w) fields

abbrev pub FieldsFit : List (ℕ × ℕ) → Type 0
FieldsFit [] = Unit
FieldsFit ((w, q) ∷ fields) = (q < 2 ^ w) × FieldsFit fields

pow_add : (p w : ℕ) → 2 ^ (p + w) ≡ 2 ^ p * 2 ^ w
pow_add p zero = ground arith
pow_add p (suc w) =
    let e : p + suc w ≡ suc (p + w) = omega arith in
    rw e (
      omega (
        arith,
        pow-suc 2 (p + w),
        pow-suc 2 w,
        pow_add p w,
        ap (λ (t : ℕ). 2 ^ p * t) (pow-suc 2 w),
      ))

field_fits : (p w r q : ℕ) → r < 2 ^ p → q < 2 ^ w → r + q * 2 ^ p < 2 ^ (p + w)
field_fits p w r q h k = rw pow_add (grind arith)

pub or_fields-eq-sum_fields :
    (fields : List (ℕ × ℕ)) (pos acc : ℕ)
    → acc < 2 ^ pos
    → FieldsFit fields
    → or_fields pos acc fields ≡ acc + sum_fields pos fields
unfolding or_fields sum_fields
or_fields-eq-sum_fields [] pos acc h fit = omega arith
or_fields-eq-sum_fields ((w, q) ∷ fields) pos acc h fit = rw (bit_or_above pos acc q h) (
    or_fields-eq-sum_fields fields (pos + w) (acc + q * 2 ^ pos) (field_fits pos w acc q h fit.0)
      fit.1
    ∙ omega arith)

-- A shift in 64 bits, where nothing is shifted out.
pub shift_fits : (k n q : ℕ) → q < 2 ^ n → k + n ≤ 64 → q * 2 ^ k % 2 ^ 64 ≡ q * 2 ^ k
shift_fits k n q h le =
    let below : q * 2 ^ k < 2 ^ (k + n) =
      omega (arith, field_fits k n 0 q (one-le-pow k 2 (omega arith)) h) in
    mod-eq_of_lt (le_trans below (pow-le-pow_right {n = 2} (omega arith) le))

-- A masked field shifted up, where nothing is shifted out.
pub shifted_field :
    (j k m x : ℕ)
    → k + m + j ≤ 64
    → bit_and x ((2 ^ j - 1) * 2 ^ k) * 2 ^ m % 2 ^ 64 ≡ x / 2 ^ k % 2 ^ j * 2 ^ (k + m)
shifted_field j k m x h =
    let q = x / 2 ^ k % 2 ^ j in
    let q_fits : q < 2 ^ j = mod-lt (x / 2 ^ k) (one-le-pow j 2 (omega arith)) in
    let moved : q * 2 ^ k * 2 ^ m ≡ q * 2 ^ (k + m) =
      omega (arith, ap (λ (t : ℕ). q * t) (pow_add k m)) in
    rw (bit_and_field j k x, moved) (shift_fits (k + m) j q q_fits h)

bit_or-zero_below : (n a : ℕ) → a ≤ n → bit_or a 0 ≡ a
bit_or-zero_below zero a h = ground (arith, bit_or-bitwise 0 0)
bit_or-zero_below (suc n) a h =
    omega (arith, bit_or_halves a 0, bit_or-zero_below n (a / 2) (omega arith))

pub bit_or-zero : (a : ℕ) → bit_or a 0 ≡ a
bit_or-zero a = bit_or-zero_below a a (omega arith)
