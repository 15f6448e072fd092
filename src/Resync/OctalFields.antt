-- ===== src/Resync/OctalFields.antt =====
-- Octal fields that were written, as crates/phx_recovery/src/resync/tar.rs reads them.
use veraqis_recover.Prelude.{
  ◌+◌, before-overwrite, behind-overwrite, ℕ, suc, ◌%◌, ◌^◌, ◌≤◌, ◌<◌, ◌≡◌, refl, ap, ◌∙◌, true,
  Bytes, IsByte, All, some, [], ◌∷◌, ◌++◌, ==_iff, length, slice, slice-overwrite, arith,
}
use veraqis_recover.Ustar.{
  first_piece, from_str_radix_8, octal_field, octal_fixed, ustar_checksum_compute, checksum_field,
  with_checksum,
}
use veraqis_recover.Ustar.Octal.{is_blank, octal_field-octal_fixed}
use veraqis_recover.Ustar.Sums.{checksum-lt}
use veraqis_recover.Ustar.RoundTrip.{with_checksum_valid, length-checksum_field, checksum_field_lem}
use veraqis_recover.Resync.Tar.{
  skip_blanks, octal, read_checksum, compute_checksum, is_value, checksum_ok,
}

skip_blanks-octal_fixed :
    (w n : ℕ) (rest : Bytes)
    → skip_blanks (octal_fixed (suc w) n ++ rest) ≡ octal_fixed (suc w) n ++ rest
unfolding skip_blanks octal_fixed
skip_blanks-octal_fixed w n rest = ground arith

pub octal-octal_fixed :
    (w n sep : ℕ) (rest : Bytes)
    → n < 8 ^ suc (suc w)
    → 8 ^ suc (suc w) ≤ 2 ^ 64
    → is_blank sep ≡ true
    → octal (octal_fixed (suc (suc w)) n ++ (sep ∷ rest)) ≡ some n
unfolding octal octal_field
octal-octal_fixed w n sep rest h k blank =
    ap (λ (t : Bytes). from_str_radix_8 (first_piece t))
      (skip_blanks-octal_fixed (suc w) n (sep ∷ rest))
    ∙ unfold octal_field in octal_field-octal_fixed w n sep rest h k blank

-- A block with its own checksum in its field.
pub checksum_ok_written :
    (block : Bytes) (n sep last : ℕ)
    → slice 148 156 block ≡ octal_fixed 6 n ++ (sep ∷ last ∷ [])
    → compute_checksum block ≡ n
    → n < 8 ^ 6
    → is_blank sep ≡ true
    → checksum_ok block ≡ true
unfolding checksum_ok read_checksum is_value
checksum_ok_written block n sep last field sum small blank =
    rw (field, octal-octal_fixed 4 n sep (last ∷ []) small (omega arith) blank)
      ((==_iff (n % 2 ^ 32) (compute_checksum block)).1 (omega (arith, small, sum)))

same_sum : (block : Bytes) → compute_checksum block ≡ ustar_checksum_compute block
unfolding compute_checksum ustar_checksum_compute
same_sum block = refl

-- The checksum repair makes a header that is trusted.
pub with_checksum-checksum_ok :
    (block : Bytes)
    → All IsByte block
    → length block ≡ 512
    → checksum_ok (with_checksum block) ≡ true
with_checksum-checksum_ok block h l =
    let n = ustar_checksum_compute block in
    let small = checksum-lt block h l in
    checksum_ok_written (with_checksum block) n b' ' 0
      (unfold with_checksum in
        slice-overwrite 148 156 (checksum_field (ustar_checksum_compute block)) block
          (omega
            (arith, length-checksum_field (ustar_checksum_compute block) (checksum-lt block h l)))
          (omega (arith, l))
        ∙ checksum_field_lem n small)
      (same_sum (with_checksum block) ∙ (with_checksum_valid block h l).1) small
      (unfold is_blank in refl)

module _ (block : Bytes) (h : All IsByte block) (l : length block ≡ 512) where
  field_length : 148 + length (checksum_field (ustar_checksum_compute block)) ≡ 156
  field_length =
      omega (arith, length-checksum_field (ustar_checksum_compute block) (checksum-lt block h l))

  pub with_checksum_behind : (c d : ℕ) → 156 ≤ c → slice c d (with_checksum block) ≡ slice c d block
  unfolding with_checksum
  with_checksum_behind =
      behind-overwrite 148 156 (checksum_field (ustar_checksum_compute block)) block field_length
        (omega (arith, l))

  pub with_checksum_before : (c d : ℕ) → d ≤ 148 → slice c d (with_checksum block) ≡ slice c d block
  unfolding with_checksum
  with_checksum_before =
      before-overwrite 148 156 (checksum_field (ustar_checksum_compute block)) block field_length
        (omega (arith, l))
