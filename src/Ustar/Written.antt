-- ===== src/Ustar/Written.antt =====
-- What a header keeps when crates/phx_recovery/src/strategies/tar_repair.rs writes its checksum.
use veraqis_recover.Prelude.{
  ◌≡◌, ap, ◌∙◌, [], ◌∷◌, ◌++◌, Bytes, IsByte, All, bytes_eq, length, take, drop, slice_behind,
  length-append, length-take, length-drop, arith, drop-drop, take-front, drop-front,
}
use veraqis_recover.Ustar.{is_ustar, ustar_checksum_compute, checksum_field, with_checksum}
use veraqis_recover.Ustar.Sums.{checksum-lt}
use veraqis_recover.Ustar.RoundTrip.{length-checksum_field}

pub length-with_checksum :
    (block : Bytes) → All IsByte block → length block ≡ 512 → length (with_checksum block) ≡ 512
unfolding with_checksum
length-with_checksum block h l =
    let field = checksum_field (ustar_checksum_compute block) in
    omega (
      arith,
      length-append (take 148 block) (field ++ drop 156 block),
      length-append field (drop 156 block),
      length-take 148 block,
      length-drop 156 block,
      length-checksum_field (ustar_checksum_compute block) (checksum-lt block h l),
      l,
    )

pub drop-with_checksum :
    (block : Bytes)
    → All IsByte block
    → length block ≡ 512
    → drop 156 (with_checksum block) ≡ drop 156 block
unfolding with_checksum
drop-with_checksum block h l =
    let field = checksum_field (ustar_checksum_compute block) in
    let fits : length field ≡ 8 =
      length-checksum_field (ustar_checksum_compute block) (checksum-lt block h l) in
    drop-drop 148 8 (take 148 block ++ (field ++ drop 156 block))
    ∙ (ap (drop 8) (
          drop-front (take 148 block) (field ++ drop 156 block) {n = 148}
            (omega (arith, length-take 148 block, l)))
        ∙ drop-front field (drop 156 block) fits)

pub is_ustar-with_checksum :
    (block : Bytes)
    → All IsByte block
    → length block ≡ 512
    → is_ustar (with_checksum block) ≡ is_ustar block
is_ustar-with_checksum block h l =
    ap (λ (s : Bytes). bytes_eq s (b'u' ∷ b's' ∷ b't' ∷ b'a' ∷ b'r' ∷ []))
      (slice_behind 156 257 262 (with_checksum block) block (omega arith)
        (drop-with_checksum block h l))

pub take-with_checksum :
    (block : Bytes) → length block ≡ 512 → take 148 (with_checksum block) ≡ take 148 block
unfolding with_checksum
take-with_checksum block l =
    take-front (take 148 block) _ {n = 148} (omega (arith, length-take 148 block, l))
