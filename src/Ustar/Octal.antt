-- ===== src/Ustar/Octal.antt =====
-- Octal digits of crates/phx_recovery/src/strategies/tar_repair.rs, written and read.
use veraqis_recover.Prelude.{
  ℕ, zero, suc, ◌+◌, ◌-◌, ◌*◌, ◌/◌, ◌%◌, ◌^◌, ◌<◌, ◌≡◌, refl, sym, ap, ◌∙◌, Bytes, some, ◌∷◌, ◌++◌,
  length, arith, lt→ltb, Bool, true, ◌||◌, ◌==◌, ◌≤◌,
}
use veraqis_recover.Prelude.Bits.{mod_mul_8}
use native.Mathlib.Nat.{pow-succ', one-le-pow, mul-le-mul_left, mod-eq_of_lt}
use veraqis_recover.Ustar.{
  first_piece, octal_digits, from_str_radix_8, octal_field, octal_fixed, octal_text,
}

pub length-octal_fixed : (w n : ℕ) → length (octal_fixed w n) ≡ w
unfolding octal_fixed
length-octal_fixed zero n = refl
length-octal_fixed (suc w) n = ap suc (length-octal_fixed w n)

-- A NUL or a space ends a field.
unfoldable pub is_blank : ℕ → Bool
is_blank b = b == 0 || b == b' '

first_piece-octal_fixed :
    (w n sep : ℕ) (rest : Bytes)
    → is_blank sep ≡ true
    → first_piece (octal_fixed w n ++ (sep ∷ rest)) ≡ octal_fixed w n
unfolding octal_fixed first_piece is_blank
first_piece-octal_fixed zero n sep rest h = ground (arith, h)
first_piece-octal_fixed (suc w) n sep rest h =
    ground (arith, first_piece-octal_fixed w n sep rest h)

-- One more digit: the number read so far, and the next.
octal_step : (w n : ℕ) → n % 8 ^ suc w ≡ n / 8 ^ w % 8 * 8 ^ w + n % 8 ^ w
octal_step w n =
    ap (λ (t : ℕ). n % t) (pow-succ' 8 w) ∙ mod_mul_8 n (8 ^ w) (one-le-pow w 8 (omega arith))

-- The number up to the next digit fits if the whole does.
octal_value :
    (w acc n : ℕ)
    → acc * 8 ^ suc w + n % 8 ^ suc w < 2 ^ 64
    → (acc * 8 + n / 8 ^ w % 8 < 2 ^ 64)
      × ((acc * 8 + n / 8 ^ w % 8) * 8 ^ w + n % 8 ^ w ≡ acc * 8 ^ suc w + n % 8 ^ suc w)
octal_value w acc n h =
    let same = octal_same w acc n in
    (
      omega (
        arith,
        same,
        h,
        mul-le-mul_left {m = 1} {n = 8 ^ w} (acc * 8 + n / 8 ^ w % 8)
            (one-le-pow w 8 (omega arith)),
      ),
      same,
    )
  where
    octal_same :
        (w acc n : ℕ)
        → (acc * 8 + n / 8 ^ w % 8) * 8 ^ w + n % 8 ^ w ≡ acc * 8 ^ suc w + n % 8 ^ suc w
    octal_same w acc n = omega (arith, octal_step w n, ap (λ (t : ℕ). acc * t) (pow-succ' 8 w))

octal_shift : (acc d : ℕ) → acc * 8 + (b'0' + d - b'0') ≡ acc * 8 + d
octal_shift acc d = omega arith

octal_digits-octal_fixed :
    (w acc n : ℕ)
    → acc * 8 ^ w + n % 8 ^ w < 2 ^ 64
    → octal_digits acc (octal_fixed w n) ≡ some (acc * 8 ^ w + n % 8 ^ w)
unfolding octal_fixed octal_digits
octal_digits-octal_fixed zero acc n h = ap some (omega arith)
octal_digits-octal_fixed (suc w) acc n h =
    let d = n / 8 ^ w % 8 in
    let value = acc * 8 + (b'0' + d - b'0') in
    let same_value = octal_shift acc d in
    let (fits, same) = octal_value w acc n h in
    ground (
      arith,
      fits,
      sym (ap some same),
      octal_digits-octal_fixed w (acc * 8 + d) n (omega (arith, same, h)),
      ap (λ (t : ℕ). octal_digits t (octal_fixed w n)) same_value,
    )

unsigned :
    (w n : ℕ)
    → from_str_radix_8 (octal_fixed (suc (suc w)) n) ≡ octal_digits 0 (octal_fixed (suc (suc w)) n)
unfolding octal_fixed from_str_radix_8
unsigned w n = ground arith

from_str_radix_8-octal_fixed :
    (w n : ℕ)
    → n < 8 ^ suc (suc w)
    → 8 ^ suc (suc w) ≤ 2 ^ 64
    → from_str_radix_8 (octal_fixed (suc (suc w)) n) ≡ some n
from_str_radix_8-octal_fixed w n h k =
    unsigned w n
    ∙ (octal_digits-octal_fixed (suc (suc w)) 0 n (omega (arith, h, k, mod-eq_of_lt h))
        ∙ ap some (omega (arith, mod-eq_of_lt h)))

-- A field of at least two digits reads the number that was written.
pub octal_field-octal_fixed :
    (w n sep : ℕ) (rest : Bytes)
    → n < 8 ^ suc (suc w)
    → 8 ^ suc (suc w) ≤ 2 ^ 64
    → is_blank sep ≡ true
    → octal_field (octal_fixed (suc (suc w)) n ++ (sep ∷ rest)) ≡ some n
unfolding octal_field
octal_field-octal_fixed w n sep rest h k blank =
    ap from_str_radix_8 (first_piece-octal_fixed (suc (suc w)) n sep rest blank)
    ∙ from_str_radix_8-octal_fixed w n h k

-- A number of `w` digits at most is written in `w`.
pub octal_text_lem : (w n : ℕ) → n < 8 ^ w → octal_text w n ≡ octal_fixed w n
unfolding octal_text
octal_text_lem w n h = rw (lt→ltb n (8 ^ w) h) refl
