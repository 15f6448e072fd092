-- ===== src/Resync/Gzip.antt =====
-- crates/phx_recovery/src/resync/gzip.rs: the members of a GZIP stream. The DEFLATE decoder and the
-- CRC-32 are those of the flate2 crate, and arguments here.
use veraqis_recover.Prelude.{
  ℕ, zero, suc, ◌+◌, ◌-◌, ◌*◌, bit_and, bit_or, Bool, true, false, not, ◌⊎◌, Option, none, some,
  List, [], ◌∷◌, ◌++◌, Bytes, from_le_bytes, if◌then◌else◌, ltb, ◌==◌, length, get_elem?, drop,
  slice, get_slice?, bytes_eq,
}
use veraqis_recover.Prelude.Options.{◌>>=◌}
use veraqis_recover.Prelude.Texts.{String}

-- What a reader of a decoder gets: a chunk with the count of bytes taken in so far, the end, or an
-- error.
pub data Reads : Type 0 where
  done : ℕ → Reads
  fail : String → ℕ → Reads
  more : Bytes → ℕ → Reads → Reads

-- `DeflateDecoder`, `Crc` and `GzEncoder` of flate2; the encoder gives an error's text or the stream.
pub record Flate : Type 0 where
  pub decoder : Bytes → Reads
  pub crc32 : Bytes → ℕ
  pub encode : Bytes → String ⊎ Bytes

pub record InflateOutcome : Type 0 where
  pub plain : Bytes
  pub consumed : ℕ
  pub ok : Bool

abbrev pub max_member_bytes : ℕ
max_member_bytes = 1024 * 1024 * 1024

unfoldable pub inflate_loop : Bytes → Reads → InflateOutcome
inflate_loop bytes (done consumed) = record { plain = bytes; consumed = consumed; ok = true }
inflate_loop bytes (fail error consumed) = record { plain = bytes; consumed = consumed; ok = false }
inflate_loop bytes (more chunk consumed reads) =
    let rest = inflate_loop (bytes ++ chunk) reads in
    if ltb max_member_bytes (length (bytes ++ chunk))
    then record { plain = bytes ++ chunk; consumed = consumed; ok = false }
    else rest

unfoldable pub inflate_member : Flate → Bytes → InflateOutcome
inflate_member flate body = inflate_loop [] (flate.decoder body)

-- The starts of the members among `n` positions from `i` on.
unfoldable pub starts_from : Bytes → ℕ → ℕ → List ℕ
starts_from input i zero = []
starts_from input i (suc n) =
    let rest = starts_from input (suc i) n in
    if bytes_eq (slice i (i + 3) input) (0x1F ∷ 0x8B ∷ 0x08 ∷ []) then i ∷ rest else rest

unfoldable pub member_starts : Bytes → List ℕ
member_starts input =
    if ltb (length input) 3 then [] else starts_from input 0 (length input - 3 + 1)

-- The position behind the next NUL, in the bytes from `pos` on.
unfoldable pub skip_zstring : ℕ → Bytes → Option ℕ
skip_zstring pos [] = none
skip_zstring pos (b ∷ bs) =
    let rest = skip_zstring (suc pos) bs in if b == 0 then some (pos + 1) else rest

unfoldable pub skip_extra : Bytes → Bool → ℕ → Option ℕ
skip_extra input false pos = some pos
skip_extra input true pos = do
  lo ← get_elem? input pos
  hi ← get_elem? input (pos + 1)
  some (pos + 2 + bit_or lo (hi * 256))

unfoldable pub skip_text : Bytes → Bool → ℕ → Option ℕ
skip_text input false pos = some pos
skip_text input true pos = skip_zstring pos (drop pos input)

-- `flags & bit != 0`.
abbrev pub gz_flag : ℕ → ℕ → Bool
gz_flag flags bit = not (bit_and flags bit == 0)

-- The optional fields behind the ten bytes, and the test against the end.
unfoldable pub fields_end : Bytes → ℕ → ℕ → Option ℕ
fields_end input flags pos = do
  extra ← skip_extra input (gz_flag flags 0x04) pos
  name ← skip_text input (gz_flag flags 0x08) extra
  comment ← skip_text input (gz_flag flags 0x10) name
  let end = if gz_flag flags 0x02 then comment + 2 else comment
  if ltb (length input) end then none else some end

unfoldable pub gz_header_len : Bytes → ℕ → Option ℕ
gz_header_len input off = do
  h ← get_slice? off (off + 10) input
  flags ← get_elem? h 3
  end ← fields_end input flags (off + 10)
  if bytes_eq (slice 0 3 h) (0x1F ∷ 0x8B ∷ 0x08 ∷ []) then some (end - off) else none

unfoldable pub read_trailer : Bytes → ℕ → Option (ℕ × ℕ)
read_trailer input at = do
  t ← get_slice? at (at + 8) input
  some (from_le_bytes (slice 0 4 t), from_le_bytes (slice 4 8 t))
