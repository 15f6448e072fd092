-- ===== src/Resync/Tar.antt =====
-- crates/phx_recovery/src/resync/tar.rs: the walk over the blocks of a TAR stream that goes on behind
-- zero blocks and unreadable headers.
use veraqis_recover.Prelude.{
  ℕ, zero, suc, ◌+◌, ◌*◌, ◌/◌, ◌%◌, ◌^◌, min, Bool, false, ◌&&◌, ◌||◌, Option, none, some, [], ◌∷◌,
  ◌++◌, Bytes, if◌then◌else◌, ltb, leb, ◌==◌, length, slice,
}
use veraqis_recover.Prelude.Options.{◌>>=◌}
use veraqis_recover.Prelude.Utf8.{from_utf8_lossy}
use veraqis_recover.Recovery.Model.{Message, number, text, utf8, plain}
use veraqis_recover.Ustar.{all_zero, is_ustar, first_piece, from_str_radix_8, or_value, sum_from}
use veraqis_recover.Resync.{Segment, verified_tar_member, SalvageResult, new, push, warn}

-- The bytes before the first NUL.
unfoldable pub before_nul : Bytes → Bytes
before_nul [] = []
before_nul (b ∷ bs) = let rest = before_nul bs in if b == 0 then [] else b ∷ rest

unfoldable pub cstr : Bytes → Bytes
cstr field = from_utf8_lossy (before_nul field)

-- `prefix/name`, or the name alone.
unfoldable pub join_name : Bytes → Bytes → Bytes
join_name [] name = name
join_name (b ∷ bs) name = (b ∷ bs) ++ (b'/' ∷ name)

unfoldable pub read_name : Bytes → Bytes
read_name block = join_name (cstr (slice 345 500 block)) (cstr (slice 0 100 block))

unfoldable pub compute_checksum : Bytes → ℕ
compute_checksum block = sum_from 0 block

-- What the pieces before the first that is not empty leave out.
unfoldable pub skip_blanks : Bytes → Bytes
skip_blanks [] = []
skip_blanks (b ∷ bs) = let rest = skip_blanks bs in if b == 0 || b == b' ' then rest else b ∷ bs

-- The first piece that is not empty, read in base 8; no such piece is an error, as no digit is.
unfoldable pub octal : Bytes → Option ℕ
octal field = from_str_radix_8 (first_piece (skip_blanks field))

unfoldable pub read_checksum : Bytes → Option ℕ
read_checksum block = do value ← octal (slice 148 156 block); some (value % 2 ^ 32)

unfoldable pub is_value : ℕ → Option ℕ → Bool
is_value v none = false
is_value v (some w) = w == v

-- `read_checksum(block) == Some(computed)`.
unfoldable pub checksum_ok : Bytes → Bool
checksum_ok block = is_value (compute_checksum block) (read_checksum block)

unfoldable pub size_of : Bytes → ℕ
size_of block = or_value 0 (octal (slice 124 136 block))

-- `size.div_ceil(BLOCK)`.
abbrev pub blocks_of : ℕ → ℕ
blocks_of size = (size + 511) / 512

pub record Walk : Type 0 where
  pub pos : ℕ
  pub result : SalvageResult
  pub zero_blocks : ℕ
  pub skipped_headers : ℕ

unfoldable pub skip_zeros : Walk → Walk
skip_zeros walk = record walk { pos = walk.pos + 512; zero_blocks = suc walk.zero_blocks }

unfoldable pub skip_garbage : Walk → Walk
skip_garbage walk = record walk { pos = walk.pos + 512; skipped_headers = suc walk.skipped_headers }

unfoldable pub skip_mismatch : Walk → Walk
skip_mismatch walk = record walk {
  pos = walk.pos + 512;
  result =
      warn
        (text "block " ∷ number (walk.pos / 512) ∷ text ": ustar checksum mismatch — skipped" ∷ [])
        walk.result;
  skipped_headers = suc walk.skipped_headers;
}

unfoldable pub count_member : SalvageResult → SalvageResult
count_member result = record result { members_total = suc result.members_total }

-- The segment of the member whose header `block` stands at `pos`.
unfoldable pub member_at : Bytes → Bytes → ℕ → Segment
member_at input block pos =
    let size = size_of block in
    record {
      kind = verified_tar_member;
      name = some (utf8 (read_name block) ∷ []);
      source_offset = pos;
      source_end = min (pos + 512 + blocks_of size * 512) (length input);
      bytes = slice (pos + 512) (pos + 512 + size) input;
      note = text "ustar checksum verified; " ∷ number size ∷ text " B data (header-proven)" ∷ [];
    }

unfoldable pub keep_member : Bytes → Bytes → Walk → Walk
keep_member input block walk = record walk {
  pos = walk.pos + 512 + blocks_of (size_of block) * 512;
  result = push (member_at input block walk.pos) (count_member walk.result);
}

unfoldable pub abstain : Bytes → Bytes → Walk → Walk
abstain input block walk = record walk {
  pos = length input;
  result =
      warn
        (text "member '"
          ∷ utf8 (read_name block)
          ∷ text "': declared "
          ∷ number (size_of block)
          ∷ text " B data is truncated — abstained"
          ∷ [])
        (count_member walk.result);
}

-- `checked_add` of a 64-bit `usize`, and the test against the length.
unfoldable pub data_fits : ℕ → ℕ → ℕ → Bool
data_fits data_start size len = ltb (data_start + size) (2 ^ 64) && leb (data_start + size) len

unfoldable pub take_member : Bytes → Bytes → Walk → Walk
take_member input block walk =
    if data_fits (walk.pos + 512) (size_of block) (length input)
    then keep_member input block walk
    else abstain input block walk

unfoldable pub on_block : Bytes → Bytes → Walk → Walk
on_block input block walk =
    if all_zero block
    then skip_zeros walk
    else if is_ustar block
    then (if checksum_ok block then take_member input block walk else skip_mismatch walk)
    else skip_garbage walk

-- The body of the `while` loop.
unfoldable pub tar_round : Bytes → Walk → Walk
tar_round input walk = on_block input (slice walk.pos (walk.pos + 512) input) walk

-- The `while` loop: each round passes a block at least, so the blocks of the data are rounds enough.
unfoldable pub salvage_loop : ℕ → Bytes → Walk → Walk
salvage_loop zero input walk = walk
salvage_loop (suc rounds) input walk =
    let next = salvage_loop rounds input (tar_round input walk) in
    if leb (walk.pos + 512) (length input) then next else walk

unfoldable pub warn_if : Bool → Message → SalvageResult → SalvageResult
warn_if b message result = if b then warn message result else result

unfoldable pub summary : Walk → SalvageResult
summary walk =
    let zeros =
      warn_if (ltb 0 walk.zero_blocks)
        (text "skipped "
          ∷ number walk.zero_blocks
          ∷ text " zero block(s) and continued (ignore-zeros)"
          ∷ [])
        walk.result in
    let headers =
      warn_if (ltb 0 walk.skipped_headers)
        (text "resynced past " ∷ number walk.skipped_headers ∷ text " unreadable block(s)" ∷ [])
        zeros in
    warn_if (headers.members_verified == 0) (plain "no member could be checksum-verified") headers

unfoldable pub started_walk : Walk
started_walk = record { pos = 0; result = new "tar"; zero_blocks = 0; skipped_headers = 0 }

unfoldable pub salvage_tar : Bytes → SalvageResult
salvage_tar input =
    if ltb (length input) 512
    then warn (plain "input shorter than one 512-byte TAR block") (new "tar")
    else summary (salvage_loop (length input / 512) input started_walk)
