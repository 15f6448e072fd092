-- ===== src/Resync/Build.antt =====
-- crates/phx_recovery/src/resync/build.rs: ustar members and archives for the tests of the salvage.
use veraqis_recover.Prelude.{
  ℕ, ◌+◌, ◌-◌, ◌*◌, List, [], ◌∷◌, ◌++◌, Bytes, min, length, take, drop, replicate,
}
use veraqis_recover.Ustar.{octal_text}
use veraqis_recover.Resync.Tar.{blocks_of}

-- `block[at..at + field.len()].copy_from_slice(field)`.
unfoldable pub write_at : ℕ → Bytes → Bytes → Bytes
write_at at field block = take at block ++ (field ++ drop (at + length field) block)

-- A field of `width` bytes: `width - 1` octal digits, cut to these, and a NUL.
unfoldable pub write_octal : ℕ → ℕ → Bytes
write_octal width value = take (width - 1) (octal_text (width - 1) value) ++ 0 ∷ []

-- The fields before the checksum.
unfoldable pub header_fields : Bytes → Bytes → Bytes
header_fields name bytes =
    let named = write_at 0 (take (min (length name) 100) name) (replicate 512 0) in
    let mode = write_at 100 (write_octal 8 0o644) named in
    let uid = write_at 108 (write_octal 8 0) mode in
    let gid = write_at 116 (write_octal 8 0) uid in
    let size = write_at 124 (write_octal 12 (length bytes)) gid in
    let mtime = write_at 136 (write_octal 12 0) size in
    let typeflag = write_at 156 (b'0' ∷ []) mtime in
    let magic = write_at 257 (b'u' ∷ b's' ∷ b't' ∷ b'a' ∷ b'r' ∷ 0 ∷ []) typeflag in
    write_at 263 (b'0' ∷ b'0' ∷ []) magic

-- The sum of all bytes.
unfoldable pub byte_sum : Bytes → ℕ
byte_sum [] = 0
byte_sum (b ∷ bs) = b + byte_sum bs

-- The checksum field is spaces while the sum is taken, and then the digits, a NUL and a space.
unfoldable pub checksummed : Bytes → Bytes
checksummed header =
    let blank = write_at 148 (replicate 8 b' ') header in
    write_at 148 (take 8 (octal_text 6 (byte_sum blank) ++ (0 ∷ b' ' ∷ []))) blank

unfoldable pub member_header : Bytes → Bytes → Bytes
member_header name bytes = checksummed (header_fields name bytes)

-- The data and the zeros that fill the last block.
unfoldable pub padded : Bytes → Bytes
padded bytes = bytes ++ replicate (blocks_of (length bytes) * 512 - length bytes) 0

unfoldable pub tar_member : Bytes → Bytes → Bytes
tar_member name bytes = member_header name bytes ++ padded bytes

-- The `for` loop of `tar_archive`, before the terminator.
unfoldable pub tar_members : List (Bytes × Bytes) → Bytes
tar_members [] = []
tar_members (file ∷ files) = tar_member file.0 file.1 ++ tar_members files

unfoldable pub tar_archive : List (Bytes × Bytes) → Bytes
tar_archive files = tar_members files ++ replicate 1024 0
