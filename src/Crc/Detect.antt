-- ===== src/Crc/Detect.antt =====
-- Changes of one byte under the checksum of crates/phx_recovery/src/crc/mod.rs.
use native.Mathlib.Decide.{ℕ_discrete}
use native.Mathlib.Nat.{mod-eq_of_lt, mod-lt, mul-div_cancel}
use veraqis_recover.Prelude.{
  ℕ, ◌+◌, ◌-◌, ◌*◌, ◌/◌, ◌%◌, ◌^◌, ◌<◌, ◌≡◌, ◌≢◌, ◌↔◌, sym, ap, ◌∙◌, refl, bit_and, bit_xor, true,
  List, [], ◌∷◌, ◌++◌, if◌then◌else◌, Bool-cases, inl, inr, arith, ==_iff, All, All-parts,
}
use veraqis_recover.Prelude.Bits.{
  bit_xor_injective, bit_xor_comm, bit_xor-mod, bit_xor-lt, two_pow_pos,
}
use veraqis_recover.Crc.{
  crc32_iso_hdlc, crc32_bzip2, crc64_xz, crc32, crc32_lem, CrcParams, reverse_bits, reflect, mask,
  byte_in, byte_round, register, finish, checksum, verify,
}
use veraqis_recover.Crc.Reflect.{reverse_bits-lt, reverse_bits_injective, reflect-reverse_bits}
use veraqis_recover.Prelude.Bits.{two_pow_add}
use veraqis_recover.Crc.Rounds.{IsSound, mask_low, cut_64, bit_rounds-lt, bit_rounds_injective}

module _ (p : CrcParams) (s : IsSound p) where
  abbrev oriented : ℕ → ℕ
  oriented byte = if p.refin then reverse_bits 8 byte else byte

  oriented-lt : (byte : ℕ) → byte < 256 → oriented byte < 256
  oriented-lt byte h = ground (arith, reverse_bits-lt 8 byte)

  oriented_injective : (a b : ℕ) → a < 256 → b < 256 → oriented a ≡ oriented b → a ≡ b
  oriented_injective a b h k e = elim (Bool-cases p.refin) [
    | inl yes_ ↦ reverse_bits_injective 8 a b h k (rw yes_ at e)
    | inr no_ ↦ rw no_ at e
  ]

  shifted-lt : (n : ℕ) → n < 256 → n * 2 ^ (p.width - 8) < 2 ^ p.width
  shifted-lt n h = grind (arith, whole, two_pow_pos (p.width - 8))
    where
      whole : 2 ^ p.width ≡ 256 * 2 ^ (p.width - 8)
      whole =
          ap (λ (t : ℕ). 2 ^ t) {y = 8 + (p.width - 8)} (omega (arith, s.at_least_8))
          ∙ two_pow_add 8 (p.width - 8)

  byte_in_value : (byte : ℕ) → byte < 256 → byte_in p byte ≡ oriented byte * 2 ^ (p.width - 8)
  unfolding byte_in
  byte_in_value byte h =
      mask_low p s (oriented byte * 2 ^ (p.width - 8) % 2 ^ 64)
      ∙ (cut_64 p s (oriented byte * 2 ^ (p.width - 8))
          ∙ mod-eq_of_lt (shifted-lt (oriented byte) (oriented-lt byte h)))

  byte_in-lt : (byte : ℕ) → byte < 256 → byte_in p byte < 2 ^ p.width
  byte_in-lt byte h = rw (byte_in_value byte h) (shifted-lt (oriented byte) (oriented-lt byte h))

  byte_in_injective : (a b : ℕ) → a < 256 → b < 256 → byte_in p a ≡ byte_in p b → a ≡ b
  byte_in_injective a b h k e = oriented_injective a b h k (
      sym (mul-div_cancel (oriented a) (two_pow_pos (p.width - 8)))
      ∙ (ap (λ (t : ℕ). t / 2 ^ (p.width - 8)) (sym (byte_in_value a h) ∙ (e ∙ byte_in_value b k))
          ∙ mul-div_cancel (oriented b) (two_pow_pos (p.width - 8))))

  byte_round-lt :
      (reg byte : ℕ) → reg < 2 ^ p.width → byte < 256 → byte_round p reg byte < 2 ^ p.width
  unfolding byte_round
  byte_round-lt reg byte h k =
      bit_rounds-lt p s 8 (bit_xor reg (byte_in p byte))
        (bit_xor-lt p.width reg (byte_in p byte) h (byte_in-lt byte k))

  -- A register is recovered from the byte and the next register.
  byte_round_injective_reg :
      (a b byte : ℕ)
      → a < 2 ^ p.width
      → b < 2 ^ p.width
      → byte < 256
      → byte_round p a byte ≡ byte_round p b byte
      → a ≡ b
  unfolding byte_round
  byte_round_injective_reg a b byte h k g e = bit_xor_injective a b (byte_in p byte) (
      bit_rounds_injective p s 8 (bit_xor a (byte_in p byte)) (bit_xor b (byte_in p byte))
        (bit_xor-lt p.width a _ h (byte_in-lt byte g))
        (bit_xor-lt p.width b _ k (byte_in-lt byte g)) e)

  -- A byte is recovered from the registers before and after it.
  byte_round_injective_byte :
      (reg a b : ℕ)
      → reg < 2 ^ p.width
      → a < 256
      → b < 256
      → byte_round p reg a ≡ byte_round p reg b
      → a ≡ b
  unfolding byte_round
  byte_round_injective_byte reg a b h k g e = byte_in_injective a b k g (
      bit_xor_injective (byte_in p a) (byte_in p b) reg
        (bit_xor_comm (byte_in p a) reg ∙ (same ∙ bit_xor_comm reg (byte_in p b))))
    where
      same : bit_xor reg (byte_in p a) ≡ bit_xor reg (byte_in p b)
      same =
          bit_rounds_injective p s 8 (bit_xor reg (byte_in p a)) (bit_xor reg (byte_in p b))
            (bit_xor-lt p.width reg _ h (byte_in-lt a k))
            (bit_xor-lt p.width reg _ h (byte_in-lt b g)) e

  register-lt :
      (xs : List ℕ) (reg : ℕ)
      → reg < 2 ^ p.width
      → All (λ b. b < 256) xs
      → register p reg xs < 2 ^ p.width
  unfolding register
  register-lt [] reg h k = h
  register-lt (x ∷ xs) reg h k = register-lt xs (byte_round p reg x) (byte_round-lt reg x h k.0) k.1

  register-append :
      (xs ys : List ℕ) (reg : ℕ) → register p reg (xs ++ ys) ≡ register p (register p reg xs) ys
  unfolding register
  register-append [] ys reg = refl
  register-append (x ∷ xs) ys reg = register-append xs ys (byte_round p reg x)

  register_injective :
      (xs : List ℕ) (a b : ℕ)
      → a < 2 ^ p.width
      → b < 2 ^ p.width
      → All (λ x. x < 256) xs
      → register p a xs ≡ register p b xs
      → a ≡ b
  unfolding register
  register_injective [] a b h k g e = e
  register_injective (x ∷ xs) a b h k g e = byte_round_injective_reg a b x h k g.0 (
      register_injective xs (byte_round p a x) (byte_round p b x) (byte_round-lt a x h g.0)
        (byte_round-lt b x k g.0) g.1 e)

  abbrev reflected : ℕ → ℕ
  reflected reg = if p.refout then reflect reg p.width else reg

  reflected-lt : (reg : ℕ) → reg < 2 ^ p.width → reflected reg < 2 ^ p.width
  reflected-lt reg h =
      ground (arith, reflect-reverse_bits p.width reg s.at_most_64 h, reverse_bits-lt p.width reg)

  reflected_injective :
      (a b : ℕ) → a < 2 ^ p.width → b < 2 ^ p.width → reflected a ≡ reflected b → a ≡ b
  reflected_injective a b h k e = elim (Bool-cases p.refout) [
    | inl out ↦ reverse_bits_injective p.width a b h k (
        sym (reflect-reverse_bits p.width a s.at_most_64 h)
        ∙ ((rw out at e) ∙ reflect-reverse_bits p.width b s.at_most_64 k))
    | inr straight ↦ rw straight at e
  ]

  finish_value :
      (reg : ℕ) → finish p reg ≡ bit_xor (reflected reg % 2 ^ p.width) (p.xorout % 2 ^ p.width)
  unfolding finish
  finish_value reg =
      mask_low p s (bit_xor (reflected reg) p.xorout) ∙ bit_xor-mod p.width (reflected reg) p.xorout

  finish_injective : (a b : ℕ) → a < 2 ^ p.width → b < 2 ^ p.width → finish p a ≡ finish p b → a ≡ b
  finish_injective a b h k e =
      reflected_injective a b h k
        (sym (mod-eq_of_lt (reflected-lt a h)) ∙ (kept ∙ mod-eq_of_lt (reflected-lt b k)))
    where
      kept : reflected a % 2 ^ p.width ≡ reflected b % 2 ^ p.width
      kept =
          bit_xor_injective _ _ (p.xorout % 2 ^ p.width)
            (sym (finish_value a) ∙ (e ∙ finish_value b))

  start-lt : bit_and p.init (mask p) < 2 ^ p.width
  start-lt = rw (mask_low p s p.init) (mod-lt p.init (two_pow_pos p.width))

  -- Under sound parameters, the checksum of any bytes is a word of the CRC's width.
  pub checksum-lt : (xs : List ℕ) → checksum p xs < 2 ^ p.width
  unfolding checksum
  checksum-lt xs =
      rw (finish_value (register p (bit_and p.init (mask p)) xs))
        (bit_xor-lt p.width _ _ (mod-lt _ (two_pow_pos p.width)) (mod-lt _ (two_pow_pos p.width)))

  -- Under sound parameters (a width of 8 to 64 bits, an odd polynomial within it), two strings of
  -- bytes that differ in exactly one byte, at one position, have different checksums.
  pub checksum-ne :
      (pre post : List ℕ) (a b : ℕ)
      → All (λ x. x < 256) (pre ++ a ∷ post)
      → b < 256
      → a ≢ b
      → checksum p (pre ++ a ∷ post) ≢ checksum p (pre ++ b ∷ post)
  unfolding checksum register
  checksum-ne pre post a b bytes hb ne e =
      let (front, (ha, back)) = All-parts (λ x. x < 256) pre (a ∷ post) bytes in
      let before = register p (bit_and p.init (mask p)) pre in
      let fits = register-lt pre (bit_and p.init (mask p)) start-lt front in
      ne (
        byte_round_injective_byte before a b fits ha hb (
          register_injective post (byte_round p before a) (byte_round p before b)
            (byte_round-lt before a fits ha) (byte_round-lt before b fits hb) back
            (finish_injective _ _
              (register-lt post (byte_round p before a) (byte_round-lt before a fits ha) back)
              (register-lt post (byte_round p before b) (byte_round-lt before b fits hb) back)
              (ap (finish p) (sym (register-append pre (a ∷ post) _))
                ∙ (e ∙ ap (finish p) (register-append pre (b ∷ post) _))))))

  verify_iff :
      (xs : List ℕ) (stored : ℕ)
      → (verify p xs stored ≡ true) ↔ (checksum p xs ≡ stored % 2 ^ p.width)
  unfolding verify
  verify_iff xs stored = rw (mask_low p s stored) (==_iff _ _)

  -- Under sound parameters, against the checksum of the original bytes, `verify` accepts bytes in which one position was
  -- written anew exactly when that position holds the original byte.
  pub verify_detects :
      (pre post : List ℕ) (a b : ℕ)
      → All (λ x. x < 256) (pre ++ a ∷ post)
      → b < 256
      → (verify p (pre ++ b ∷ post) (checksum p (pre ++ a ∷ post)) ≡ true) ↔ (a ≡ b)
  verify_detects pre post a b bytes hb = (
    λ ok. elim (ℕ_discrete a b) [
      | yes same ↦ same
      | no ne ↦ absurd (checksum-ne pre post a b bytes hb ne (sym ((verify_iff _ _).0 ok ∙ stored)))
    ],
    λ same.
        (verify_iff _ _).1 (ap (λ (x : ℕ). checksum p (pre ++ x ∷ post)) (sym same) ∙ sym stored),
  )
    where
      stored : checksum p (pre ++ a ∷ post) % 2 ^ p.width ≡ checksum p (pre ++ a ∷ post)
      stored = mod-eq_of_lt (checksum-lt (pre ++ a ∷ post))

-- CRC-32/ISO-HDLC is sound, and so are the other two parameter sets.
pub crc32_iso_hdlc-IsSound : IsSound crc32_iso_hdlc
crc32_iso_hdlc-IsSound = omega arith

pub crc32_bzip2-IsSound : IsSound crc32_bzip2
crc32_bzip2-IsSound = omega arith

pub crc64_xz-IsSound : IsSound crc64_xz
crc64_xz-IsSound = omega arith

-- The callers' `as u32` cuts nothing off.
pub crc32-ne :
    (pre post : List ℕ) (a b : ℕ)
    → All (λ x. x < 256) (pre ++ a ∷ post)
    → b < 256
    → a ≢ b
    → crc32 (pre ++ a ∷ post) ≢ crc32 (pre ++ b ∷ post)
crc32-ne pre post a b bytes hb ne e =
    checksum-ne crc32_iso_hdlc crc32_iso_hdlc-IsSound pre post a b bytes hb ne
      (sym (whole (pre ++ a ∷ post)) ∙ (e ∙ whole (pre ++ b ∷ post)))
  where
    whole : (xs : List ℕ) → crc32 xs ≡ checksum crc32_iso_hdlc xs
    whole xs = crc32_lem xs ∙ mod-eq_of_lt (checksum-lt crc32_iso_hdlc crc32_iso_hdlc-IsSound xs)
