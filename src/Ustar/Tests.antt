-- ===== src/Ustar/Tests.antt =====
-- A header block of zeros but for its first byte.
use veraqis_recover.Prelude.{◌≡◌, refl, ◌∷◌, Bytes, IsByte, All, replicate, replicate-IsByte, arith}
use veraqis_recover.Ustar.{ustar_checksum_compute, ustar_checksum_read, with_checksum}
use veraqis_recover.Ustar.RoundTrip.{with_checksum_valid}

abbrev header : Bytes
header = b'a' ∷ replicate 511 0

header_bytes : All IsByte header
header_bytes = (omega arith, replicate-IsByte 511)

with_checksum_valid_example :
    (ustar_checksum_read (with_checksum header) ≡ ustar_checksum_compute (with_checksum header))
    × (ustar_checksum_compute (with_checksum header) ≡ ustar_checksum_compute header)
with_checksum_valid_example = with_checksum_valid header header_bytes refl
