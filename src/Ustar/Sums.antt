-- ===== src/Ustar/Sums.antt =====
-- The checksum of crates/phx_recovery/src/strategies/tar_repair.rs as a sum of the parts of a block.
use veraqis_recover.Prelude.{
  ℕ, suc, ◌+◌, ◌*◌, ◌^◌, ◌≤◌, ◌<◌, ◌≡◌, refl, sym, ap, ◌∙◌, Bytes, IsByte, [], ◌∷◌, ◌++◌, All,
  length, arith,
}
use veraqis_recover.Ustar.{sum_from, ustar_checksum_compute}

sum_from-append :
    (i : ℕ) (xs ys : Bytes) → sum_from i (xs ++ ys) ≡ sum_from i xs + sum_from (i + length xs) ys
unfolding sum_from
sum_from-append i [] ys =
    omega (arith, ap (λ (k : ℕ). sum_from k ys) {x = i} {y = i + 0} (omega arith))
sum_from-append i (x ∷ xs) ys = omega (
  arith,
  sum_from-append (suc i) xs ys,
  ap (λ (k : ℕ). sum_from k ys) {x = suc i + length xs} {y = i + suc (length xs)} (omega arith),
)

sum_from-field :
    (i : ℕ) (xs : Bytes) → 148 ≤ i → i + length xs ≤ 156 → sum_from i xs ≡ 32 * length xs
unfolding sum_from
sum_from-field i [] h k = refl
sum_from-field i (x ∷ xs) h k = ground (arith, sum_from-field (suc i) xs)

-- Bytes sum to less than 256 each.
sum_from-lt : (i : ℕ) (xs : Bytes) → All IsByte xs → sum_from i xs ≤ 255 * length xs
unfolding sum_from
sum_from-lt i [] h = omega arith
sum_from-lt i (x ∷ xs) h = ground (arith, sum_from-lt (suc i) xs h.1, h.0)

checksum-field :
    (front field back : Bytes)
    → length front ≡ 148
    → length field ≡ 8
    → sum_from 0 (front ++ (field ++ back)) ≡ sum_from 0 front + 256 + sum_from 156 back
checksum-field front field back f g = omega (
  arith,
  f,
  g,
  sum_from-append 0 front (field ++ back),
  ap (λ (i : ℕ). sum_from i (field ++ back)) {x = 0 + length front} {y = 148} (omega (arith, f)),
  sum_from-append 148 field back,
  ap (λ (i : ℕ). sum_from i back) {x = 148 + length field} {y = 156} (omega (arith, g)),
  sum_from-field 148 field (omega arith) (omega (arith, g)),
)

-- The checksum of a block of bytes fits six octal digits.
pub checksum-lt :
    (block : Bytes) → All IsByte block → length block ≡ 512 → ustar_checksum_compute block < 8 ^ 6
unfolding ustar_checksum_compute
checksum-lt block h l = omega (arith, sum_from-lt 0 block h, l)

-- Two fields of eight bytes in one place give one checksum.
pub checksum-fields :
    (front field other back : Bytes)
    → length front ≡ 148
    → length field ≡ 8
    → length other ≡ 8
    → ustar_checksum_compute (front ++ (field ++ back))
      ≡ ustar_checksum_compute (front ++ (other ++ back))
unfolding ustar_checksum_compute
checksum-fields front field other back f g h =
    checksum-field front field back f g ∙ sym (checksum-field front other back f h)
