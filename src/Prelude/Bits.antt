-- ===== src/Prelude/Bits.antt =====
-- Laws of `&`, `|` and `^` at variables, by induction on the width.
mod Steps
pub use Steps.*
use Prim.Native.Nat.{digits, bitwise, bit_and-bitwise, bit_or-bitwise, bit_xor-bitwise, differ}
use Prim.Native.Nat.{ℕ, zero, suc, ◌+◌, ◌-◌, ◌*◌, ◌/◌, ◌%◌, ◌^◌, ◌≤◌, ◌<◌, min, max}
use Prim.Native.Nat.{bit_and, bit_or, bit_xor}
use mathlib.Core.Path.{◌≡◌, refl, sym, ap, ap₂, ◌∙◌}
use mathlib.Core.Logic.{◌⊎◌, inl, inr}
use native.Mathlib.Omega.{arith}
use native.Mathlib.Nat.{
  pow-succ', one-le-pow, le_refl, div-add-mod, mod-lt, mod-eq_of_lt, add-mul-mod_self_left,
  div-div-eq-div-mul, mul-le-mul_right,
}

bit_and-zero_fuel : (n a : ℕ) → a ≤ n → bit_and a 0 ≡ 0
bit_and-zero_fuel n zero h = refl
bit_and-zero_fuel zero (suc a) h = elim h [ ]
bit_and-zero_fuel (suc n) (suc a) h =
    omega (arith, bit_and_step (suc a) 0, bit_and-zero_fuel n (suc a / 2) (omega arith))

pub bit_and-zero : (a : ℕ) → bit_and a 0 ≡ 0
bit_and-zero a = bit_and-zero_fuel a a (le_refl a)

-- A mask of the low `k` bits is a remainder.
pub bit_and_low : (k a : ℕ) → bit_and a (2 ^ k - 1) ≡ a % 2 ^ k
bit_and_low zero a = omega (arith, bit_and-zero a)
bit_and_low (suc k) a = omega (
  arith,
  two_pow_suc k,
  two_pow_pos k,
  mod_pow_suc a k,
  halved,
  bit_and_step a (2 ^ suc k - 1),
  bit_and_low k (a / 2),
)
  where
    halved : bit_and (a / 2) ((2 ^ suc k - 1) / 2) ≡ bit_and (a / 2) (2 ^ k - 1)
    halved = ap (λ (t : ℕ). bit_and (a / 2) t) (omega (arith, two_pow_suc k, two_pow_pos k))

-- The single bit `k` of a number below `2 ^ (k + 1)` is its quotient by `2 ^ k`.
pub bit_and_top : (k a : ℕ) → a < 2 * 2 ^ k → bit_and a (2 ^ k) ≡ a / 2 ^ k * 2 ^ k
bit_and_top zero a h = omega (arith, bit_and_low 1 a)
bit_and_top (suc k) a h = omega (
  arith,
  two_pow_suc k,
  bit_and_step a (2 ^ suc k),
  halved,
  bit_and_top k (a / 2) (omega (arith, two_pow_suc k)),
  ap (λ (t : ℕ). a / 2 / 2 ^ k * t) (two_pow_suc k),
  ap (λ (t : ℕ). t * 2 ^ suc k) divided,
)
  where
    halved : bit_and (a / 2) (2 ^ suc k / 2) ≡ bit_and (a / 2) (2 ^ k)
    halved = ap (λ (t : ℕ). bit_and (a / 2) t) (omega (arith, two_pow_suc k))

    divided : a / 2 ^ suc k ≡ a / 2 / 2 ^ k
    divided = ap (λ (t : ℕ). a / t) (two_pow_suc k) ∙ sym (div-div-eq-div-mul a 2 (2 ^ k))

xor_cancel_fuel : (n a b : ℕ) → a ≤ n → b ≤ n → bit_xor (bit_xor a b) b ≡ a
xor_cancel_fuel zero zero zero h k = refl
xor_cancel_fuel zero (suc a) b h k = elim h [ ]
xor_cancel_fuel zero zero (suc b) h k = elim k [ ]
xor_cancel_fuel (suc n) a b h k = omega (
  arith,
  bit_xor_step a b,
  bit_xor_step (bit_xor a b) b,
  halved,
  xor_cancel_fuel n (a / 2) (b / 2) (omega arith) (omega arith),
)
  where
    halved : bit_xor (bit_xor a b / 2) (b / 2) ≡ bit_xor (bit_xor (a / 2) (b / 2)) (b / 2)
    halved = ap (λ (t : ℕ). bit_xor t (b / 2)) (omega (arith, bit_xor_step a b))

-- A second `^` by the same word undoes the first.
pub bit_xor_cancel : (a b : ℕ) → bit_xor (bit_xor a b) b ≡ a
bit_xor_cancel a b = xor_cancel_fuel (a + b) a b (omega arith) (omega arith)

pub bit_xor_injective : (a b c : ℕ) → bit_xor a c ≡ bit_xor b c → a ≡ b
bit_xor_injective a b c e =
    sym (bit_xor_cancel a c) ∙ (ap (λ (t : ℕ). bit_xor t c) e ∙ bit_xor_cancel b c)

pub bit_xor-mod : (k a b : ℕ) → bit_xor a b % 2 ^ k ≡ bit_xor (a % 2 ^ k) (b % 2 ^ k)
bit_xor-mod zero a b = omega (arith, none_left)
  where
    none_left : bit_xor (a % 2 ^ zero) (b % 2 ^ zero) ≡ bit_xor 0 0
    none_left = ap₂ bit_xor {y = 0} {v = 0} (omega arith) (omega arith)
bit_xor-mod (suc k) a b = omega (
  arith,
  mod_pow_suc (bit_xor a b) k,
  bit_xor_step a b,
  bit_xor_step (a % 2 ^ suc k) (b % 2 ^ suc k),
  mod_pow_suc a k,
  mod_pow_suc b k,
  bit_xor-mod k (a / 2) (b / 2),
  halved,
  shift,
)
  where
    halved :
        bit_xor (a % 2 ^ suc k / 2) (b % 2 ^ suc k / 2) ≡ bit_xor (a / 2 % 2 ^ k) (b / 2 % 2 ^ k)
    halved = ap₂ bit_xor (omega (arith, mod_pow_suc a k)) (omega (arith, mod_pow_suc b k))

    shift : bit_xor a b / 2 % 2 ^ k ≡ bit_xor (a / 2) (b / 2) % 2 ^ k
    shift = ap (λ (t : ℕ). t % 2 ^ k) (omega (arith, bit_xor_step a b))

pub bit_xor-lt : (k a b : ℕ) → a < 2 ^ k → b < 2 ^ k → bit_xor a b < 2 ^ k
bit_xor-lt zero a b h k = rw (zero_of a h, zero_of b k) (omega arith)
  where
    zero_of : (n : ℕ) → n < 2 ^ zero → n ≡ 0
    zero_of n p = omega arith
bit_xor-lt (suc k) a b h g = omega (
  arith,
  two_pow_suc k,
  bit_xor_step a b,
  bit_xor-lt k (a / 2) (b / 2) (omega (arith, two_pow_suc k)) (omega (arith, two_pow_suc k)),
)

xor_comm_fuel : (n a b : ℕ) → a ≤ n → b ≤ n → bit_xor a b ≡ bit_xor b a
xor_comm_fuel zero zero zero h k = refl
xor_comm_fuel zero (suc a) b h k = elim h [ ]
xor_comm_fuel zero zero (suc b) h k = elim k [ ]
xor_comm_fuel (suc n) a b h k = omega (
  arith,
  bit_xor_step a b,
  bit_xor_step b a,
  xor_comm_fuel n (a / 2) (b / 2) (omega arith) (omega arith),
)

pub bit_xor_comm : (a b : ℕ) → bit_xor a b ≡ bit_xor b a
bit_xor_comm a b = xor_comm_fuel (a + b) a b (omega arith) (omega arith)

-- The wider of two remainders by powers of two does not matter.
pub mod_pow_pow : (w d a : ℕ) → a % 2 ^ (w + d) % 2 ^ w ≡ a % 2 ^ w
mod_pow_pow zero d a = omega arith
mod_pow_pow (suc w) d a = omega (
  arith,
  ap (λ (t : ℕ). a % 2 ^ t % 2 ^ suc w) same,
  mod_pow_suc (a % 2 ^ suc (w + d)) w,
  mod_pow_suc a (w + d),
  mod_pow_suc a w,
  ap (λ (t : ℕ). t % 2 ^ w) halved,
  mod_pow_pow w d (a / 2),
)
  where
    same : suc w + d ≡ suc (w + d)
    same = omega arith

    halved : a % 2 ^ suc (w + d) / 2 ≡ a / 2 % 2 ^ (w + d)
    halved = omega (arith, mod_pow_suc a (w + d))

or_zero_fuel : (n a : ℕ) → a ≤ n → bit_or a 0 ≡ a
or_zero_fuel n zero h = refl
or_zero_fuel zero (suc a) h = elim h [ ]
or_zero_fuel (suc n) (suc a) h =
    omega (arith, bit_or_step (suc a) 0, or_zero_fuel n (suc a / 2) (omega arith))

zero-bit_or : (b : ℕ) → bit_or 0 b ≡ b
zero-bit_or b = simp bit_or-bitwise refl

-- `a | q << k` is a sum when `a` fits below bit `k`.
pub bit_or_above : (k a q : ℕ) → a < 2 ^ k → bit_or a (q * 2 ^ k) ≡ a + q * 2 ^ k
bit_or_above zero a q h = omega (
  arith,
  ap₂ bit_or {x = a} {y = 0} {u = q * 1} {v = q} (omega arith) (omega arith),
  zero-bit_or q,
)
bit_or_above (suc k) a q h = omega (
  arith,
  bit_or_step a (q * 2 ^ suc k),
  doubled,
  bit_or_above k (a / 2) q (omega (arith, two_pow_suc k)),
  ap (λ (t : ℕ). bit_or (a / 2) t) {x = q * 2 ^ suc k / 2} {y = q * 2 ^ k} (omega (arith, doubled)),
)
  where
    doubled : q * 2 ^ suc k ≡ 2 * (q * 2 ^ k)
    doubled = omega (arith, ap (λ (t : ℕ). q * t) (two_pow_suc k))

pub bit_or-lt : (k a b : ℕ) → a < 2 ^ k → b < 2 ^ k → bit_or a b < 2 ^ k
bit_or-lt zero a b h g =
    omega
      (arith, ap₂ bit_or {x = a} {y = 0} {u = b} {v = 0} (omega arith) (omega arith), zero-bit_or 0)
bit_or-lt (suc k) a b h g = omega (
  arith,
  two_pow_suc k,
  bit_or_step a b,
  bit_or-lt k (a / 2) (b / 2) (omega (arith, two_pow_suc k)) (omega (arith, two_pow_suc k)),
)

pub two_pow_add : (w d : ℕ) → 2 ^ (w + d) ≡ 2 ^ w * 2 ^ d
two_pow_add zero d = ap (λ (t : ℕ). 2 ^ t) {y = d} (omega arith) ∙ omega arith
two_pow_add (suc w) d = omega (
  arith,
  ap (λ (t : ℕ). 2 ^ t) same,
  two_pow_suc (w + d),
  two_pow_add w d,
  ap (λ (t : ℕ). t * 2 ^ d) (two_pow_suc w),
)
  where
    same : suc w + d ≡ suc (w + d)
    same = omega arith

-- A remainder by `8 * p`, as an octal digit and the remainder by `p`.
pub mod_mul_8 : (n p : ℕ) → 0 < p → n % (8 * p) ≡ n / p % 8 * p + n % p
mod_mul_8 n p h = ap (λ (t : ℕ). t % (8 * p)) split ∙ (add-mul-mod_self_left _ (8 * p) _ ∙ small)
  where
    low : ℕ
    low = n / p % 8 * p + n % p

    digit : n / p ≡ 8 * (n / p / 8) + n / p % 8
    digit = omega arith

    split : n ≡ low + 8 * p * (n / p / 8)
    split = omega (arith, div-add-mod n p, ap (λ (q : ℕ). p * q) digit)

    small : low % (8 * p) ≡ low
    small =
        mod-eq_of_lt
          (omega (arith, mod-lt n h, mul-le-mul_right {m = n / p % 8} {n = 7} p (omega arith)))
