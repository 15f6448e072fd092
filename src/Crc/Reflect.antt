-- ===== src/Crc/Reflect.antt =====
-- `reverse_bits` and `reflect` of crates/phx_recovery/src/crc/mod.rs as functions to invert.
use mathlib.Core.Path.{ap₂}
use native.Mathlib.Nat.{mul-div_cancel}
use veraqis_recover.Prelude.{
  ℕ, zero, suc, ◌+◌, ◌-◌, ◌*◌, ◌/◌, ◌%◌, ◌^◌, ◌≤◌, ◌<◌, ◌≡◌, refl, ap, ◌∙◌, arith,
}
use veraqis_recover.Prelude.Bits.{two_pow_pos, two_pow_suc, two_pow_add}
use veraqis_recover.Crc.{reverse_bits, reflect}

pub reverse_bits-lt : (w v : ℕ) → reverse_bits w v < 2 ^ w
unfolding reverse_bits
reverse_bits-lt zero v = omega arith
reverse_bits-lt (suc w) v = grind (arith, reverse_bits-lt w (v / 2), two_pow_suc w)

-- A leading binary digit and a remainder are determined by their sum.
leading_digit :
    (x y p r t : ℕ) → x < 2 → y < 2 → r < p → t < p → x * p + r ≡ y * p + t → (x ≡ y) × (r ≡ t)
leading_digit zero zero p r t hx hy hr ht e = omega arith
leading_digit zero (suc zero) p r t hx hy hr ht e = omega arith
leading_digit (suc zero) zero p r t hx hy hr ht e = omega arith
leading_digit (suc zero) (suc zero) p r t hx hy hr ht e = omega arith
leading_digit (suc (suc x)) y p r t hx hy hr ht e = absurd (omega arith)
leading_digit zero (suc (suc y)) p r t hx hy hr ht e = absurd (omega arith)
leading_digit (suc zero) (suc (suc y)) p r t hx hy hr ht e = absurd (omega arith)

pub reverse_bits_injective :
    (w a b : ℕ) → a < 2 ^ w → b < 2 ^ w → reverse_bits w a ≡ reverse_bits w b → a ≡ b
unfolding reverse_bits
reverse_bits_injective zero a b h k e = omega arith
reverse_bits_injective (suc w) a b h k e =
    let parts =
      leading_digit (a % 2) (b % 2) (2 ^ w) (reverse_bits w (a / 2)) (reverse_bits w (b / 2))
        (omega arith) (omega arith) (reverse_bits-lt w _) (reverse_bits-lt w _) e in
    let rest : a / 2 ≡ b / 2 =
      reverse_bits_injective w (a / 2) (b / 2) (omega (arith, two_pow_suc w))
        (omega (arith, two_pow_suc w)) parts.1 in
    omega (arith, parts.0)

reverse_bits_zero : (d : ℕ) → reverse_bits d 0 ≡ 0
unfolding reverse_bits
reverse_bits_zero zero = refl
reverse_bits_zero (suc d) = omega (arith, reverse_bits_zero d)

-- Reversing in a wider word leaves the reversed digits at its top.
reverse_bits_wide : (w d v : ℕ) → v < 2 ^ w → reverse_bits (w + d) v ≡ reverse_bits w v * 2 ^ d
unfolding reverse_bits
reverse_bits_wide zero d v h = omega (
  arith,
  ap₂ reverse_bits {x = zero + d} {y = d} {u = v} {v = 0} (omega arith) (omega arith),
  reverse_bits_zero d,
)
reverse_bits_wide (suc w) d v h = omega (
  arith,
  ap (λ (t : ℕ). reverse_bits t v) same,
  ap (λ (t : ℕ). v % 2 * t) (two_pow_add w d),
  reverse_bits_wide w d (v / 2) (omega (arith, two_pow_suc w)),
)
  where
    same : suc w + d ≡ suc (w + d)
    same = omega arith

-- On a register of the right width `reflect` is the reversal in that width.
pub reflect-reverse_bits : (w v : ℕ) → w ≤ 64 → v < 2 ^ w → reflect v w ≡ reverse_bits w v
unfolding reflect
reflect-reverse_bits w v h k =
    ap (λ (t : ℕ). t / 2 ^ (64 - w)) whole
    ∙ mul-div_cancel (reverse_bits w v) (two_pow_pos (64 - w))
  where
    whole : reverse_bits 64 v ≡ reverse_bits w v * 2 ^ (64 - w)
    whole =
        ap (λ (t : ℕ). reverse_bits t v) {x = 64} (omega arith) ∙ reverse_bits_wide w (64 - w) v k
