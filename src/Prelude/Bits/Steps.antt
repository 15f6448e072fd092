-- ===== src/Prelude/Bits/Steps.antt =====
-- `&`, `|` and `^` by their lowest digit, and remainders by powers of two.
use Prim.Native.Nat.{digits, bitwise, bit_and-bitwise, bit_or-bitwise, bit_xor-bitwise, differ}
use Prim.Native.Nat.{ℕ, zero, suc, ◌+◌, ◌*◌, ◌/◌, ◌%◌, ◌^◌, ◌≤◌, ◌<◌, min, max}
use Prim.Native.Nat.{bit_and, bit_or, bit_xor}
use mathlib.Core.Path.{◌≡◌, refl, sym, ap, ◌∙◌}
use mathlib.Core.Logic.{◌⊎◌, inl, inr}
use native.Mathlib.Omega.{arith}
use native.Mathlib.Nat.{
  pow-succ', one-le-pow, div-add-mod, mod-lt, mod-eq_of_lt, add-mul-mod_self_left,
}

≤-split : (x n : ℕ) → x ≤ suc n → (x ≤ n) ⊎ (x ≡ suc n)
≤-split x n h = ground arith

-- The native operations recurse on binary digits, as deep as their fuel; it does not matter how much
-- more of it there is than digits.
module _ (z : ℕ → ℕ) (f : ℕ → ℕ → ℕ) where
  one_more : (fuel x y : ℕ) → x ≤ fuel → digits z f (suc fuel) x y ≡ digits z f fuel x y
  one_more zero zero y h = refl
  one_more zero (suc x) y h = absurd (omega arith)
  one_more (suc fuel) zero y h = refl
  one_more (suc fuel) (suc x) y h = rw (one_more fuel (suc x / 2) (y / 2) (omega arith))

  spare : (n x y : ℕ) → x ≤ n → bitwise z f x y ≡ digits z f n x y
  spare zero zero y h = refl
  spare zero (suc x) y h = absurd (omega arith)
  spare (suc n) x y h = elim (≤-split x n h) [
    | inl below ↦ spare n x y below ∙ sym (one_more n x y below)
    | inr same ↦ ap (λ (k : ℕ). digits z f k x y) same
  ]

  -- `h` says how the operation treats a first argument without digits.
  bitwise-step :
      (h : (y : ℕ) → z y ≡ z (y / 2) * 2 + f 0 (y % 2)) (x y : ℕ)
      → bitwise z f x y ≡ bitwise z f (x / 2) (y / 2) * 2 + f (x % 2) (y % 2)
  bitwise-step h zero y = h y
  bitwise-step h (suc x) y = omega (arith, spare x (suc x / 2) (y / 2) (omega arith))

differ_bits : (x y : ℕ) → x < 2 → y < 2 → differ x y ≡ (x + y) % 2
differ_bits zero y h k = omega arith
differ_bits (suc zero) zero h k = refl
differ_bits (suc zero) (suc zero) h k = refl
differ_bits (suc zero) (suc (suc y)) h k = absurd (omega arith)
differ_bits (suc (suc x)) y h k = absurd (omega arith)

pub bit_and_step : (a b : ℕ) → bit_and a b ≡ bit_and (a / 2) (b / 2) * 2 + min (a % 2) (b % 2)
bit_and_step a b = simp bit_and-bitwise (bitwise-step (λ y. 0) min (λ y. omega arith) a b)

pub bit_or_step : (a b : ℕ) → bit_or a b ≡ bit_or (a / 2) (b / 2) * 2 + max (a % 2) (b % 2)
bit_or_step a b = simp bit_or-bitwise (bitwise-step (λ y. y) max (λ y. omega arith) a b)

pub bit_xor_step : (a b : ℕ) → bit_xor a b ≡ bit_xor (a / 2) (b / 2) * 2 + (a % 2 + b % 2) % 2
bit_xor_step a b =
    simp bit_xor-bitwise (bitwise-step (λ y. y) differ (λ y. last y) a b)
    ∙ ap (λ (t : ℕ). bit_xor (a / 2) (b / 2) * 2 + t)
        (differ_bits (a % 2) (b % 2) (omega arith) (omega arith))
  where
    last : (y : ℕ) → y ≡ y / 2 * 2 + differ 0 (y % 2)
    last y = omega (arith, differ_bits 0 (y % 2) (omega arith) (omega arith))

-- One binary digit more on a remainder.
pub mod_double : (a p : ℕ) → 0 < p → a % (2 * p) ≡ a / 2 % p * 2 + a % 2
mod_double a p h = ap (λ (t : ℕ). t % (2 * p)) split ∙ (add-mul-mod_self_left _ (2 * p) _ ∙ small)
  where
    low : ℕ
    low = a / 2 % p * 2 + a % 2

    split : a ≡ low + 2 * p * (a / 2 / p)
    split = omega (arith, div-add-mod (a / 2) p)

    small : low % (2 * p) ≡ low
    small = mod-eq_of_lt (omega (arith, mod-lt (a / 2) h))

pub mod_pow_suc : (a k : ℕ) → a % 2 ^ suc k ≡ a / 2 % 2 ^ k * 2 + a % 2
mod_pow_suc a k =
    ap (λ (t : ℕ). a % t) (pow-succ' 2 k) ∙ mod_double a (2 ^ k) (one-le-pow k 2 (omega arith))

pub two_pow_suc : (k : ℕ) → 2 ^ suc k ≡ 2 * 2 ^ k
two_pow_suc k = pow-succ' 2 k

pub two_pow_pos : (k : ℕ) → 0 < 2 ^ k
two_pow_pos k = one-le-pow k 2 (omega arith)
