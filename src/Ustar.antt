-- ===== src/Ustar.antt =====
-- The numbers of a ustar header: its octal fields and its checksum, as
-- crates/phx_recovery/src/strategies/tar_repair.rs reads and writes them.
pub mod Sums
pub mod Magic
pub mod Octal
pub mod RoundTrip
pub mod Written
mod Tests
use veraqis_recover.Prelude.{
  ℕ, zero, suc, ◌+◌, ◌-◌, ◌*◌, ◌/◌, ◌%◌, ◌^◌, max, Bool, true, false, ◌&&◌, ◌||◌, Option, none,
  some, List, [], ◌∷◌, ◌++◌, Bytes, if◌then◌else◌, ltb, leb, ◌==◌, all, bytes_eq, take, drop, slice,
  length,
}
use veraqis_recover.Prelude.Options.{◌>>=◌}

abbrev pub all_zero : Bytes → Bool
all_zero bytes = all (λ b. b == 0) bytes

-- `&block[257..262] == b"ustar"`.
abbrev pub is_ustar : Bytes → Bool
is_ustar block = bytes_eq (slice 257 262 block) (b'u' ∷ b's' ∷ b't' ∷ b'a' ∷ b'r' ∷ [])

-- The bytes before the first NUL or space: the first piece of the `split`.
unfoldable pub first_piece : Bytes → Bytes
first_piece [] = []
first_piece (b ∷ bs) = let rest = first_piece bs in if b == 0 || b == b' ' then [] else b ∷ rest

octal_digit : ℕ → Option ℕ
octal_digit b = if leb b'0' b && leb b b'7' then some (b - b'0') else none

-- `u64::from_str_radix(s, 8)` behind the sign, on from `acc`.
unfoldable pub octal_digits : ℕ → Bytes → Option ℕ
unfolding octal_digit
octal_digits acc [] = some acc
octal_digits acc (b ∷ bs) =
    let value = acc * 8 + (b - b'0') in
    let rest = octal_digits value bs in
    if leb b'0' b && leb b b'7' && ltb value (2 ^ 64) then rest else none

-- `u64::from_str_radix(s, 8)`: no digit is an error, a `+` may stand before them.
unfoldable pub from_str_radix_8 : Bytes → Option ℕ
from_str_radix_8 [] = none
from_str_radix_8 (b ∷ []) = octal_digits 0 (b ∷ [])
from_str_radix_8 (b ∷ c ∷ bs) =
    if b == b'+' then octal_digits 0 (c ∷ bs) else octal_digits 0 (b ∷ c ∷ bs)

unfoldable pub octal_field : Bytes → Option ℕ
octal_field field = from_str_radix_8 (first_piece field)

abbrev pub or_value : ℕ → Option ℕ → ℕ
or_value d none = d
or_value d (some v) = v

-- The sum of the bytes from index `i` on, those of the checksum field taken as spaces.
unfoldable pub sum_from : ℕ → Bytes → ℕ
sum_from i [] = 0
sum_from i (b ∷ bs) = (if leb 148 i && ltb i 156 then b' ' else b) + sum_from (suc i) bs

unfoldable pub ustar_checksum_compute : Bytes → ℕ
ustar_checksum_compute block = sum_from 0 block

-- A field without a number reads as `u64::MAX as u32`.
unfoldable pub ustar_checksum_read : Bytes → ℕ
ustar_checksum_read block = or_value (2 ^ 64 - 1) (octal_field (slice 148 156 block)) % 2 ^ 32

-- The `w` last octal digits of `n`.
unfoldable pub octal_fixed : ℕ → ℕ → Bytes
octal_fixed zero n = []
octal_fixed (suc w) n = (b'0' + n / 8 ^ w % 8) ∷ octal_fixed w n

octal_width : ℕ → ℕ → ℕ
octal_width zero n = 0
octal_width (suc fuel) n = let rest = octal_width fuel (n / 8) in if n == 0 then 0 else suc rest

-- `{n:0wo}`: at least `w` digits; a number has at most as many as it counts.
unfoldable pub octal_text : ℕ → ℕ → Bytes
unfolding octal_width
octal_text w n = if ltb n (8 ^ w) then octal_fixed w n else octal_fixed (octal_width n n) n

-- The checksum field: the digits, a space and a NUL, cut to eight bytes.
unfoldable pub checksum_field : ℕ → Bytes
checksum_field computed = take 8 (octal_text 6 computed ++ (b' ' ∷ 0 ∷ []))

-- A block with its checksum field written over.
unfoldable pub with_checksum : Bytes → Bytes
with_checksum block =
    take 148 block ++ (checksum_field (ustar_checksum_compute block) ++ drop 156 block)
