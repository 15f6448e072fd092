-- ===== src/Crc.antt =====
-- crates/phx_recovery/src/crc: the parameterised (Rocksoft) CRC of `mod.rs`, and the three
-- parameter sets of `catalog.rs`. A `u64` is a native number, and what its shifts lose is written
-- out. `checksum` shifts by `width - 8`: below a width of 8 the source's subtraction overflows, so
-- the theorems ask for a width of 8 at least. Table
-- and Bitwise are about the analyzer's own CRC-32.
pub mod Reflect
pub mod Rounds
pub mod Detect
pub mod Table
pub mod Bitwise
mod Tests
use Prim.Native.String.{String}
use veraqis_recover.Prelude.{
  ◌≡◌, refl, ℕ, zero, suc, ◌+◌, ◌-◌, ◌*◌, ◌/◌, ◌%◌, ◌^◌, ◌≤◌, ◌<◌, ◌≡◌, bit_and, bit_xor, Bool,
  true, false, not, List, [], ◌∷◌, leb, ◌==◌, if◌then◌else◌,
}
use mathlib.Core.List.{foldl}

pub record CrcParams : Type 0 where
  pub width : ℕ
  pub poly : ℕ
  pub init : ℕ
  pub refin : Bool
  pub refout : Bool
  pub xorout : ℕ
  pub name : String

-- `reverse_bits` of a word of the given width.
unfoldable pub reverse_bits : ℕ → ℕ → ℕ
reverse_bits zero v = 0
reverse_bits (suc w) v = v % 2 * 2 ^ w + reverse_bits w (v / 2)

unfoldable pub reflect : ℕ → ℕ → ℕ
reflect value width = reverse_bits 64 value / 2 ^ (64 - width)

unfoldable pub mask : CrcParams → ℕ
mask p = if leb 64 p.width then 2 ^ 64 - 1 else 2 ^ p.width - 1

-- The body of `for _ in 0..8`.
unfoldable pub bit_round : CrcParams → ℕ → ℕ
bit_round p reg =
    let shifted = reg * 2 % 2 ^ 64 in
    if not (bit_and reg (2 ^ (p.width - 1)) == 0)
    then bit_and (bit_xor shifted p.poly) (mask p)
    else bit_and shifted (mask p)

pub bit_rounds : ℕ → CrcParams → ℕ → ℕ
bit_rounds zero p reg = reg
bit_rounds (suc n) p reg = bit_rounds n p (bit_round p reg)

-- What the byte adds to the register, before its eight rounds.
unfoldable pub byte_in : CrcParams → ℕ → ℕ
byte_in p byte =
    let b = if p.refin then reverse_bits 8 byte else byte in
    bit_and (b * 2 ^ (p.width - 8) % 2 ^ 64) (mask p)

unfoldable pub byte_round : CrcParams → ℕ → ℕ → ℕ
unfolding bit_rounds
byte_round p reg byte = bit_rounds 8 p (bit_xor reg (byte_in p byte))

-- The register after `for &byte in data`.
unfoldable pub register : CrcParams → ℕ → List ℕ → ℕ
register p reg [] = reg
register p reg (byte ∷ data_left) = register p (byte_round p reg byte) data_left

unfoldable pub finish : CrcParams → ℕ → ℕ
finish p reg =
    let out = if p.refout then reflect reg p.width else reg in
    bit_and (bit_xor out p.xorout) (mask p)

unfoldable pub checksum : CrcParams → List ℕ → ℕ
checksum p bytes = finish p (register p (bit_and p.init (mask p)) bytes)

unfoldable pub verify : CrcParams → List ℕ → ℕ → Bool
verify p bytes stored = checksum p bytes == bit_and stored (mask p)

unfoldable pub evidence_width : CrcParams → ℕ
evidence_width p = p.width

abbrev pub crc32_iso_hdlc : CrcParams
crc32_iso_hdlc = record {
  width = 32;
  poly = 0x04C1_1DB7;
  init = 0xFFFF_FFFF;
  refin = true;
  refout = true;
  xorout = 0xFFFF_FFFF;
  name = "CRC-32/ISO-HDLC";
}

abbrev pub crc32_bzip2 : CrcParams
crc32_bzip2 = record {
  width = 32;
  poly = 0x04C1_1DB7;
  init = 0xFFFF_FFFF;
  refin = false;
  refout = false;
  xorout = 0xFFFF_FFFF;
  name = "CRC-32/BZIP2";
}

abbrev pub crc64_xz : CrcParams
crc64_xz = record {
  width = 64;
  poly = 0x42F0_E1EB_A9EA_3693;
  init = 0xFFFF_FFFF_FFFF_FFFF;
  refin = true;
  refout = true;
  xorout = 0xFFFF_FFFF_FFFF_FFFF;
  name = "CRC-64/XZ";
}

-- `CRC32_ISO_HDLC.checksum(bytes) as u32`, as the callers write it. The line opens the whole
-- computation, for the runs.
unfoldable pub crc32 : List ℕ → ℕ
unfolding checksum register byte_round bit_rounds bit_round byte_in mask reverse_bits reflect finish
crc32 bytes = checksum crc32_iso_hdlc bytes % 2 ^ 32

pub crc32_lem : (bytes : List ℕ) → crc32 bytes ≡ checksum crc32_iso_hdlc bytes % 2 ^ 32
unfolding crc32
crc32_lem bytes = refl
