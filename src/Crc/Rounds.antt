-- ===== src/Crc/Rounds.antt =====
-- The rounds of `checksum` in crates/phx_recovery/src/crc/mod.rs, on registers of the width.
use mathlib.Core.Path.{ap₂}
use native.Mathlib.Nat.{mod-eq-sub-mod, mod-eq_of_lt, mod-lt, div-eq_of_lt, div-eq_of_lt-le}
use veraqis_recover.Prelude.{
  ℕ, zero, suc, ◌+◌, ◌-◌, ◌*◌, ◌/◌, ◌%◌, ◌^◌, ◌≤◌, ◌<◌, ◌≡◌, sym, ap, ◌∙◌, bit_and, bit_xor, true,
  false, leb, ◌==◌, Bool-cases, leb→le, inl, inr, arith,
}
use veraqis_recover.Prelude.Bits.{
  bit_and_low, bit_and_top, bit_xor_step, bit_xor_injective, bit_xor-mod, mod_pow_pow, two_pow_pos,
  two_pow_suc,
}
use veraqis_recover.Crc.{CrcParams, mask, bit_round, bit_rounds}

-- The parameter sets that the theorems are about.
pub record IsSound (p : CrcParams) : Type 0 where
  pub at_least_8 : 8 ≤ p.width
  pub at_most_64 : p.width ≤ 64
  pub poly_fits : p.poly < 2 ^ p.width
  pub poly_odd : p.poly % 2 ≡ 1

module _ (p : CrcParams) (s : IsSound p) where
  abbrev pub top : ℕ
  top = 2 ^ (p.width - 1)

  pub size_top : 2 ^ p.width ≡ 2 * top
  size_top = ap (λ (t : ℕ). 2 ^ t) split ∙ two_pow_suc (p.width - 1)
    where
      split : p.width ≡ suc (p.width - 1)
      split = omega (arith, s.at_least_8)

  pub top_pos : 0 < top
  top_pos = two_pow_pos (p.width - 1)

  pub mask_low : (a : ℕ) → bit_and a (mask p) ≡ a % 2 ^ p.width
  unfolding mask
  mask_low a = elim (Bool-cases (leb 64 p.width)) [
    | inl wide ↦
        rw wide (ap (λ (w : ℕ). bit_and a (2 ^ w - 1)) (is_64 wide) ∙ bit_and_low p.width a)
    | inr narrow ↦ rw narrow (bit_and_low p.width a)
  ]
    where
      is_64 : leb 64 p.width ≡ true → 64 ≡ p.width
      is_64 wide = ground (arith, s.at_most_64)

  -- Cutting to 64 bits first does not change the low `width` bits.
  pub cut_64 : (a : ℕ) → a % 2 ^ 64 % 2 ^ p.width ≡ a % 2 ^ p.width
  cut_64 a = ap (λ (t : ℕ). a % 2 ^ t % 2 ^ p.width) split ∙ mod_pow_pow p.width (64 - p.width) a
    where
      split : 64 ≡ p.width + (64 - p.width)
      split = omega (arith, s.at_most_64)

  doubled_high : (r : ℕ) → r < 2 ^ p.width → top ≤ r → r * 2 % 2 ^ p.width ≡ (r - top) * 2
  doubled_high r h k = omega (
    arith,
    size_top,
    mod-eq-sub-mod {n = r * 2} {m = 2 ^ p.width} (omega (arith, size_top)),
    mod-eq_of_lt {n = r * 2 - 2 ^ p.width} {m = 2 ^ p.width} (omega (arith, size_top)),
  )

  test_high : (r : ℕ) → r < 2 ^ p.width → top ≤ r → bit_and r top ≡ top
  test_high r h k = omega (
    arith,
    bit_and_top (p.width - 1) r (omega (arith, size_top)),
    ap (λ (t : ℕ). t * top) one_time,
  )
    where
      one_time : r / top ≡ 1
      one_time = div-eq_of_lt-le {k = 1} top (omega arith) (omega (arith, size_top))

  test_low : (r : ℕ) → r < top → bit_and r top ≡ 0
  test_low r h = omega (
    arith,
    bit_and_top (p.width - 1) r (omega (arith, size_top)),
    ap (λ (t : ℕ). t * top) (div-eq_of_lt h),
  )

  round_high : (r : ℕ) → r < 2 ^ p.width → top ≤ r → bit_round p r ≡ bit_xor ((r - top) * 2) p.poly
  unfolding bit_round
  round_high r h k = rw taken (
      mask_low (bit_xor (r * 2 % 2 ^ 64) p.poly)
      ∙ bit_xor-mod p.width (r * 2 % 2 ^ 64) p.poly
      ∙ ap₂ bit_xor (cut_64 (r * 2) ∙ doubled_high r h k) (mod-eq_of_lt s.poly_fits))
    where
      taken : (bit_and r (2 ^ (p.width - 1)) == 0) ≡ false
      taken = ground (arith, test_high r h k, top_pos)

  round_low : (r : ℕ) → r < top → bit_round p r ≡ r * 2
  unfolding bit_round
  round_low r h =
      rw taken (mask_low (r * 2 % 2 ^ 64) ∙ cut_64 (r * 2) ∙ mod-eq_of_lt (omega (arith, size_top)))
    where
      taken : (bit_and r (2 ^ (p.width - 1)) == 0) ≡ true
      taken = ground (arith, test_low r h)

  -- A round that feeds the polynomial in leaves an odd register, any other an even one.
  odd_high : (n : ℕ) → bit_xor (n * 2) p.poly % 2 ≡ 1
  odd_high n = omega (arith, bit_xor_step (n * 2) p.poly, s.poly_odd)

  bit_round_injective :
      (a b : ℕ) → a < 2 ^ p.width → b < 2 ^ p.width → bit_round p a ≡ bit_round p b → a ≡ b
  bit_round_injective a b h k e = elim (Bool-cases (leb top a)) [
    | inl ta ↦ elim (Bool-cases (leb top b)) [
      | inl tb ↦ high_high (leb→le _ _ ta) (leb→le _ _ tb)
      | inr tb ↦ absurd (differ_parity a b h (leb→le _ _ ta) (ground arith) e)
    ]
    | inr ta ↦ elim (Bool-cases (leb top b)) [
      | inl tb ↦ absurd (differ_parity b a k (leb→le _ _ tb) (ground arith) (sym e))
      | inr tb ↦ omega (arith, e, round_low a (ground arith), round_low b (ground arith))
    ]
  ]
    where
      high_high : top ≤ a → top ≤ b → a ≡ b
      high_high ta tb = omega (
        arith,
        bit_xor_injective ((a - top) * 2) ((b - top) * 2) p.poly
            (sym (round_high a h ta) ∙ (e ∙ round_high b k tb)),
      )

      differ_parity :
          (x y : ℕ) → x < 2 ^ p.width → top ≤ x → y < top → bit_round p x ≡ bit_round p y → ⊥
      differ_parity x y hx tx ty ee =
          omega (arith, round_high x hx tx, round_low y ty, odd_high (x - top), ee)

  bit_round-lt : (r : ℕ) → bit_round p r < 2 ^ p.width
  unfolding bit_round
  bit_round-lt r = ground (
    arith,
    mask_low (bit_xor (r * 2 % 2 ^ 64) p.poly),
    mask_low (r * 2 % 2 ^ 64),
    mod-lt (bit_xor (r * 2 % 2 ^ 64) p.poly) (two_pow_pos p.width),
    mod-lt (r * 2 % 2 ^ 64) (two_pow_pos p.width),
  )

  pub bit_rounds-lt : (n r : ℕ) → r < 2 ^ p.width → bit_rounds n p r < 2 ^ p.width
  unfolding bit_rounds
  bit_rounds-lt zero r h = h
  bit_rounds-lt (suc n) r h = bit_rounds-lt n (bit_round p r) (bit_round-lt r)

  pub bit_rounds_injective :
      (n a b : ℕ) → a < 2 ^ p.width → b < 2 ^ p.width → bit_rounds n p a ≡ bit_rounds n p b → a ≡ b
  unfolding bit_rounds
  bit_rounds_injective zero a b h k e = e
  bit_rounds_injective (suc n) a b h k e =
      bit_round_injective a b h k
        (bit_rounds_injective n (bit_round p a) (bit_round p b) (bit_round-lt a) (bit_round-lt b) e)
