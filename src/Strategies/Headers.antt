-- ===== src/Strategies/Headers.antt =====
-- The headers that the checksum repair of crates/phx_recovery/src/strategies/tar_repair.rs passes.
use veraqis_recover.Prelude.{
  ℕ, zero, suc, ◌*◌, ◌/◌, ◌≤◌, ◌≡◌, refl, ap, ◌∙◌, Bool, true, false, ◌&&◌, ◌++◌, Bytes, IsByte,
  All, ◌==◌, ==_iff, if◌then◌else◌, length, take, drop, length-take, length-drop, arith, Bool-cases,
  inl, inr, ◌⊎◌, All-take, All-drop, take-front, drop-front,
}
use veraqis_recover.Ustar.{
  all_zero, is_ustar, ustar_checksum_compute, ustar_checksum_read, with_checksum,
}
use veraqis_recover.Ustar.Written.{length-with_checksum, is_ustar-with_checksum}
use veraqis_recover.Ustar.RoundTrip.{with_checksum_valid}
use veraqis_recover.Ustar.Magic.{all_zero-is_ustar}
use veraqis_recover.Strategies.TarRepair.{
  fix_block, fix_header, fix_blocks, fix_checksums, data_blocks,
}

-- A ustar header has its own checksum, and the rest is valid; zeros end the walk.
unfoldable pub valid_step : Bool → Bool → Bool → Bool → Bool
valid_step ustar own zeros rest = if ustar then own && rest else if zeros then true else rest

-- Whether each ustar header on the walk has its own checksum: the walk goes on behind a header's
-- data blocks, and ends at a block of zeros.
unfoldable pub headers_valid : ℕ → ℕ → Bytes → Bool
headers_valid zero skip bytes = true
headers_valid (suc blocks) (suc skip) bytes = headers_valid blocks skip (drop 512 bytes)
headers_valid (suc blocks) zero bytes =
    let block = take 512 bytes in
    let rest =
      headers_valid blocks (if is_ustar block then data_blocks block else 0) (drop 512 bytes) in
    valid_step (is_ustar block) (ustar_checksum_read block == ustar_checksum_compute block)
      (all_zero block) rest

-- What is known of a header that was passed.
record IsFixed (block header : Bytes) : Type 0 where
  whole : length header ≡ 512
  kind : is_ustar header ≡ is_ustar block
  valid :
      (is_ustar block ≡ false)
      ⊎ ((ustar_checksum_read header == ustar_checksum_compute header) ≡ true)

written-IsFixed :
    (block : Bytes) → All IsByte block → length block ≡ 512 → IsFixed block (with_checksum block)
written-IsFixed block h l = record {
  whole = length-with_checksum block h l;
  kind = is_ustar-with_checksum block h l;
  valid = inr ((==_iff _ _).1 (with_checksum_valid block h l).0);
}

fix_block-IsFixed :
    (block : Bytes) → All IsByte block → length block ≡ 512 → IsFixed block (fix_block block).0
unfolding fix_block
fix_block-IsFixed block h l =
    elim (Bool-cases (ustar_checksum_read block == ustar_checksum_compute block)) [
      | inl own ↦ simp own (record { whole = l; kind = refl; valid = inr own })
      | inr other ↦ simp other (written-IsFixed block h l)
    ]

fix_header-IsFixed :
    (block : Bytes) → All IsByte block → length block ≡ 512 → IsFixed block (fix_header block).0
unfolding fix_header
fix_header-IsFixed block h l = elim (Bool-cases (is_ustar block)) [
  | inl ustar ↦ simp ustar (fix_block-IsFixed block h l)
  | inr other ↦ simp other (record { whole = l; kind = refl; valid = inl other })
]

valid_step-true :
    (ustar own zeros rest : Bool)
    → (ustar ≡ false) ⊎ (own ≡ true)
    → rest ≡ true
    → valid_step ustar own zeros rest ≡ true
unfolding valid_step
valid_step-true ustar own zeros rest h r = ground arith

-- A header that was passed, with what follows it, is valid if what follows it is.
header_step :
    (blocks : ℕ) (block header rest : Bytes)
    → IsFixed block header
    → headers_valid blocks (if is_ustar block then data_blocks header else 0) rest ≡ true
    → headers_valid (suc blocks) 0 (header ++ rest) ≡ true
unfolding headers_valid
header_step blocks block header rest fixed ok =
    rw (take-front header rest fixed.whole, drop-front header rest fixed.whole, fixed.kind)
      (valid_step-true (is_ustar block) _ (all_zero header) _ fixed.valid ok)

-- A data block is passed.
passed :
    (blocks skip : ℕ) (block rest : Bytes)
    → length block ≡ 512
    → headers_valid blocks skip rest ≡ true
    → headers_valid (suc blocks) (suc skip) (block ++ rest) ≡ true
unfolding headers_valid
passed blocks skip block rest l ok = ap (headers_valid blocks skip) (drop-front block rest l) ∙ ok

-- A block of zeros ends the walk.
ended :
    (blocks : ℕ) (bytes : Bytes)
    → all_zero (take 512 bytes) ≡ true
    → headers_valid (suc blocks) 0 bytes ≡ true
unfolding headers_valid valid_step
ended blocks bytes zeros = rw (all_zero-is_ustar (take 512 bytes) zeros, zeros) refl

-- The walk of the repair leaves valid headers behind it.
fix_blocks-headers_valid :
    (blocks skip : ℕ) (bytes : Bytes)
    → All IsByte bytes
    → 512 * blocks ≤ length bytes
    → headers_valid blocks skip (fix_blocks blocks skip bytes).0 ≡ true
unfolding fix_blocks
fix_blocks-headers_valid zero skip bytes h l = unfold headers_valid in refl
fix_blocks-headers_valid (suc blocks) (suc skip) bytes h l =
    let rest = (fix_blocks blocks skip (drop 512 bytes)).0 in
    passed blocks skip (take 512 bytes) rest (omega (arith, length-take 512 bytes, l)) (
      fix_blocks-headers_valid blocks skip (drop 512 bytes) (All-drop IsByte 512 bytes h)
        (omega (arith, length-drop 512 bytes, l)))
fix_blocks-headers_valid (suc blocks) zero bytes h l =
    let block = take 512 bytes in
    let whole : length block ≡ 512 = omega (arith, length-take 512 bytes, l) in
    let fixed = fix_header-IsFixed block (All-take IsByte 512 bytes h) whole in
    let header = (fix_header block).0 in
    let skip = if is_ustar block then data_blocks header else 0 in
    let rest = (fix_blocks blocks skip (drop 512 bytes)).0 in
    elim (Bool-cases (all_zero block)) [
      | inl zeros ↦ simp zeros (ended blocks bytes zeros)
      | inr more ↦ simp more (
          header_step blocks block header rest fixed (
            fix_blocks-headers_valid blocks skip (drop 512 bytes) (All-drop IsByte 512 bytes h)
              (omega (arith, length-drop 512 bytes, l))))
    ]

-- After the checksum repair of a byte string, every ustar header on the walk over its blocks has its
-- own checksum.
pub fix_checksums-headers_valid :
    (bytes : Bytes)
    → All IsByte bytes
    → headers_valid (length bytes / 512) 0 (fix_checksums bytes).0 ≡ true
unfolding fix_checksums
fix_checksums-headers_valid bytes h =
    fix_blocks-headers_valid (length bytes / 512) 0 bytes h (omega arith)
