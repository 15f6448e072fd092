-- ===== src/SevenZ.antt =====
-- crates/phx_recovery/src/sevenz/mod.rs: the 32-byte signature header of 7z, and the repair of its
-- signature behind the Start-Header CRC. A `usize` has 64 bits.
pub mod Repair
mod Tests
use Prim.Native.String.{String}
use veraqis_recover.Prelude.{
  ℕ, zero, suc, ◌+◌, ◌-◌, ◌*◌, ◌^◌, Bool, true, false, not, ◌&&◌, List, [], ◌∷◌, Option, none, some,
  ltb, leb, ◌==◌, if◌then◌else◌, length, take, drop, slice, Bytes, from_le_bytes, bytes_eq,
}
use veraqis_recover.Crc.{crc32}

abbrev pub signature : Bytes
signature = 0x37 ∷ 0x7A ∷ 0xBC ∷ 0xAF ∷ 0x27 ∷ 0x1C ∷ []

abbrev pub signature_header_len : ℕ
signature_header_len = 32

pub record Inspect : Type 0 where
  pub signature_ok : Bool
  pub start_header_crc_ok : Bool
  pub next_header_offset : ℕ
  pub next_header_size : ℕ
  pub end_header_in_bounds : Bool
  pub end_header_crc_ok : Bool

unfoldable pub signature_ok : Bytes → Bool
signature_ok bytes = leb 6 (length bytes) && bytes_eq (take 6 bytes) signature

unfoldable pub start_header_crc_ok : Bytes → Bool
start_header_crc_ok bytes =
    if ltb (length bytes) signature_header_len
    then false
    else from_le_bytes (slice 8 12 bytes) == crc32 (slice 12 32 bytes)

-- `u64::checked_add`.
unfoldable pub checked_add : ℕ → ℕ → Option ℕ
checked_add a b = if ltb (a + b) (2 ^ 64) then some (a + b) else none

-- `.map(|end| end <= data.len()).unwrap_or(false)` of the end that the header points at.
ends_within : ℕ → Option ℕ → Bool
ends_within len none = false
ends_within len (some stop) = leb stop len

add_size : ℕ → Option ℕ → Option ℕ
add_size next_size none = none
add_size next_size (some s) = checked_add s next_size

unfoldable pub in_bounds : ℕ → ℕ → ℕ → Bool
unfolding ends_within add_size checked_add
in_bounds len next_off next_size =
    ends_within len (add_size next_size (checked_add signature_header_len next_off))

unfoldable pub inspect : Bytes → Inspect
inspect bytes =
    if ltb (length bytes) signature_header_len
    then record {
      signature_ok = signature_ok bytes;
      start_header_crc_ok = false;
      next_header_offset = 0;
      next_header_size = 0;
      end_header_in_bounds = false;
      end_header_crc_ok = false;
    }
    else let next_off = from_le_bytes (slice 12 20 bytes) in
      let next_size = from_le_bytes (slice 20 28 bytes) in
      let next_crc = from_le_bytes (slice 28 32 bytes) in
      let within = in_bounds (length bytes) next_off next_size in
      let start = signature_header_len + next_off in
      record {
        signature_ok = signature_ok bytes;
        start_header_crc_ok = start_header_crc_ok bytes;
        next_header_offset = next_off;
        next_header_size = next_size;
        end_header_in_bounds = within;
        end_header_crc_ok =
            if within && ltb 0 next_size
            then crc32 (slice start (start + next_size) bytes) == next_crc
            else false;
      }

pub record SignatureRepair : Type 0 where
  pub bytes : Bytes
  pub bytes_written : ℕ
  pub verified_by : String

-- The loop over `SIGNATURE`, on the bytes not yet reached: the bytes after it, and how many it wrote.
unfoldable pub restore : Bytes → Bytes → Bytes × ℕ
restore [] out = (out, 0)
restore (b ∷ bs) [] = ([], 0)
restore (b ∷ bs) (x ∷ xs) =
    let (rest, written) = restore bs xs in
    if x == b then (x ∷ rest, written) else (b ∷ rest, written + 1)

unfoldable pub repair_signature : Bytes → Option SignatureRepair
repair_signature bytes =
    if ltb (length bytes) signature_header_len
    then none
    else if signature_ok bytes
    then none
    else if not (start_header_crc_ok bytes)
    then none
    else let (out, written) = restore signature bytes in
      some (record {
        bytes = out;
        bytes_written = written;
        verified_by = "7z Start-Header CRC-32 over [12,32)";
      })
