-- ===== src/Snapshotter/Breakpoint/Trap.antt =====
-- The word that arms a breakpoint.
use process_bridge.Base.{◌≡◌, ◌∙◌, ◌<◌, ◌%◌, ◌/◌, ◌*◌, ◌+◌, ◌-◌, ◌^◌, ap, ℕ, bit_and, bit_or, arith}
use process_bridge.Base.Bits.{bit_and_field, bit_or_halves, bit_or-zero}
use process_bridge.Snapshotter.Breakpoint.{place_int3_in_first_byte}

trap_added : (q : ℕ) → bit_or (q * 2 ^ 8) 0xCC ≡ 0xCC + q * 256
trap_added q = ground (
  arith,
  bit_or_halves (q * 256) 204,
  bit_or_halves (q * 128) 102,
  bit_or_halves (q * 64) 51,
  bit_or_halves (q * 32) 25,
  bit_or_halves (q * 16) 12,
  bit_or_halves (q * 8) 6,
  bit_or_halves (q * 4) 3,
  bit_or_halves (q * 2) 1,
  bit_or-zero q,
)

-- In a 64-bit word, the first byte of the armed word is `int3`, and its other bytes are as they were.
pub place_int3_in_first_byte-bytes :
    (word : ℕ)
    → word < 2 ^ 64
    → (place_int3_in_first_byte word % 256 ≡ 0xCC)
      × (place_int3_in_first_byte word / 256 ≡ word / 256)
unfolding place_int3_in_first_byte
place_int3_in_first_byte-bytes word small =
    let masked : bit_and word (2 ^ 64 - 1 - 0xFF) ≡ word / 2 ^ 8 % 2 ^ 56 * 2 ^ 8 =
      bit_and_field 56 8 word in
    let armed : bit_or (bit_and word (2 ^ 64 - 1 - 0xFF)) 0xCC ≡ 0xCC + word / 256 * 256 =
      ap (λ (m : ℕ). bit_or m 0xCC) (masked ∙ omega (arith, small)) ∙ trap_added (word / 256) in
    (ap (λ (m : ℕ). m % 256) armed ∙ omega arith, ap (λ (m : ℕ). m / 256) armed ∙ omega arith)
