-- ===== src/Ustar/RoundTrip.antt =====
-- Octal fields of crates/phx_recovery/src/strategies/tar_repair.rs, written and read.
use veraqis_recover.Prelude.{
  ℕ, ◌-◌, ◌%◌, ◌^◌, ◌<◌, ◌≡◌, refl, sym, ap, ◌∙◌, Bytes, IsByte, Option, [], ◌∷◌, ◌++◌, All, length,
  length-append, length-take, length-drop, take, drop, slice, take-append-drop, take-all, slice_at,
  drop-drop, arith,
}
use veraqis_recover.Ustar.{
  octal_field, or_value, ustar_checksum_compute, ustar_checksum_read, octal_fixed, checksum_field,
  with_checksum,
}
use veraqis_recover.Ustar.Octal.{
  length-octal_fixed, octal_field-octal_fixed, octal_text_lem, is_blank,
}
use veraqis_recover.Ustar.Sums.{checksum-fields, checksum-lt}

pub checksum_field_lem : (n : ℕ) → n < 8 ^ 6 → checksum_field n ≡ octal_fixed 6 n ++ (b' ' ∷ 0 ∷ [])
unfolding checksum_field
checksum_field_lem n h =
    ap (λ (t : Bytes). take 8 (t ++ (b' ' ∷ 0 ∷ []))) (octal_text_lem 6 n h)
    ∙ eight (octal_fixed 6 n) (length-octal_fixed 6 n)
  where
    eight :
        (digits : Bytes)
        → length digits ≡ 6
        → take 8 (digits ++ (b' ' ∷ 0 ∷ [])) ≡ digits ++ (b' ' ∷ 0 ∷ [])
    eight digits l =
        take-all 8 (digits ++ (b' ' ∷ 0 ∷ []))
          (omega (arith, l, length-append digits (b' ' ∷ 0 ∷ [])))

pub length-checksum_field : (n : ℕ) → n < 8 ^ 6 → length (checksum_field n) ≡ 8
length-checksum_field n h =
    ap length (checksum_field_lem n h)
    ∙ omega (arith, length-append (octal_fixed 6 n) (b' ' ∷ 0 ∷ []), length-octal_fixed 6 n)

slice_field :
    (front field back : Bytes)
    → length front ≡ 148
    → length field ≡ 8
    → slice 148 156 (front ++ (field ++ back)) ≡ field
slice_field front field back f g =
    slice_at 148 156 front field back (omega (arith, f)) (omega (arith, g))

-- A block's front, its checksum field and its back.
block_parts :
    (block : Bytes) → block ≡ take 148 block ++ (take 8 (drop 148 block) ++ drop 156 block)
block_parts block =
    sym (take-append-drop 148 block)
    ∙ ap (λ (t : Bytes). take 148 block ++ t)
        (sym (take-append-drop 8 (drop 148 block))
          ∙ ap (λ (t : Bytes). take 8 (drop 148 block) ++ t) (sym (drop-drop 148 8 block)))

read_written :
    (front back : Bytes) (n : ℕ)
    → length front ≡ 148
    → n < 8 ^ 6
    → ustar_checksum_read (front ++ (checksum_field n ++ back)) ≡ n
unfolding ustar_checksum_read
read_written front back n f h =
    ap (λ (s : Bytes). or_value (2 ^ 64 - 1) (octal_field s) % 2 ^ 32)
      (slice_field front (checksum_field n) back f (length-checksum_field n h)
        ∙ checksum_field_lem n h)
    ∙ (ap (λ (o : Option ℕ). or_value (2 ^ 64 - 1) o % 2 ^ 32)
          (octal_field-octal_fixed 4 n b' ' (0 ∷ []) h (omega arith) (unfold is_blank in refl))
        ∙ omega (arith, h))

-- A header block of bytes whose checksum is written over reads the checksum that it has, which is
-- the one that it had.
pub with_checksum_valid :
    (block : Bytes)
    → All IsByte block
    → length block ≡ 512
    → (ustar_checksum_read (with_checksum block) ≡ ustar_checksum_compute (with_checksum block))
      × (ustar_checksum_compute (with_checksum block) ≡ ustar_checksum_compute block)
unfolding with_checksum
with_checksum_valid block h l =
    let small = checksum-lt block h l in
    let front_length : length (take 148 block) ≡ 148 = omega (arith, length-take 148 block, l) in
    let same =
      checksum-fields (take 148 block) (checksum_field (ustar_checksum_compute block))
        (take 8 (drop 148 block)) (drop 156 block) front_length
        (length-checksum_field (ustar_checksum_compute block) small)
        (omega (arith, length-take 8 (drop 148 block), length-drop 148 block, l))
      ∙ ap ustar_checksum_compute (sym (block_parts block)) in
    (
      read_written (take 148 block) (drop 156 block) (ustar_checksum_compute block) front_length
            small
          ∙ sym same,
      same,
    )
