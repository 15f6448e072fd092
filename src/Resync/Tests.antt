-- ===== src/Resync/Tests.antt =====
-- Streams with one short member, blocks of zeros and other blocks.
use veraqis_recover.Prelude.{
  ◌≡◌, refl, some, List, [], ◌∷◌, Bytes, All, length, replicate, arith, ◌+◌, ◌/◌, ◌<◌, ◌≤◌,
}
use veraqis_recover.Recovery.Model.{utf8, plain}
use veraqis_recover.Resync.{Segment, verified_tar_member, new, push}
use veraqis_recover.Resync.Tallies.{IsTallied, new-IsTallied, push-IsTallied}
use veraqis_recover.Resync.Tar.{
  checksum_ok, size_of, salvage_loop, started_walk, salvage_tar, compute_checksum, read_checksum,
  octal, skip_blanks, is_value,
}
use veraqis_recover.Resync.Spans.{
  Item, member, gap, IsWhole, is_gap, IsItem, item_onto, stream, contents_of, members_of,
}
use veraqis_recover.Resync.Build.{
  write_at, write_octal, header_fields, byte_sum, checksummed, member_header, padded,
}
use veraqis_recover.Resync.Continues.{salvage_tar_continues}
use veraqis_recover.Resync.Salvage.{IsSalvage, salvage_tar-IsSalvage}
use veraqis_recover.Resync.Stored.{
  stored_block_bytes, total_len, scan_stored_blocks, scan_loop, anchors, len_at, nlen_at, block_at,
  next_at,
}
use veraqis_recover.Resync.StoredBlocks.{
  StoredFrom, scan_stored_blocks_sound, stored_block_bytes_bound,
}
use veraqis_recover.Resync.Termination.{salvage_loop_stops}
use veraqis_recover.Ustar.{
  octal_text, octal_fixed, octal_digits, from_str_radix_8, first_piece, sum_from,
}

abbrev name : Bytes
name = b'a' ∷ []

abbrev bytes : Bytes
bytes = b'h' ∷ b'i' ∷ []

abbrev header : Bytes
header = member_header name bytes

abbrev body : Bytes
body = padded bytes

header-IsWhole : IsWhole header body
unfolding write_at write_octal header_fields byte_sum checksummed member_header padded octal_text
    octal_fixed octal_digits from_str_radix_8 first_piece sum_from checksum_ok size_of
    compute_checksum read_checksum octal skip_blanks is_value
header-IsWhole = record { sized = refl; magic = refl; own = refl; padded = refl }

-- Zeros, the member, and a block of garbage.
abbrev items : List Item
items = gap (replicate 512 0) ∷ member header body ∷ gap (replicate 512 0x55) ∷ []

items_good : All IsItem items
unfolding IsItem is_gap
items_good = ((refl, refl), (header-IsWhole, ((refl, refl), tt)))

salvage_tar_continues_example :
    contents_of (salvage_tar (stream items (1 ∷ 2 ∷ []))) ≡ members_of items
unfolding stream item_onto write_at write_octal header_fields byte_sum checksummed member_header
    padded octal_text octal_fixed
salvage_tar_continues_example =
    salvage_tar_continues items (1 ∷ 2 ∷ []) items_good (omega arith) (omega arith)

salvage_loop_stops_example :
    (salvage_loop (length body / 512 + 7) body started_walk
      ≡ salvage_loop (length body / 512) body started_walk)
    × (length body < (salvage_loop (length body / 512) body started_walk).pos + 512)
salvage_loop_stops_example = salvage_loop_stops 7 body

salvage_tar-IsSalvage_example : IsSalvage (stream items []) (salvage_tar (stream items []))
salvage_tar-IsSalvage_example = salvage_tar-IsSalvage (stream items [])

abbrev segment : Segment
segment = record {
  kind = verified_tar_member;
  name = some (utf8 name ∷ []);
  source_offset = 0;
  source_end = 1024;
  bytes = bytes;
  note = plain "";
}

push-IsTallied_example : IsTallied (push segment (new "tar"))
push-IsTallied_example = push-IsTallied segment (new "tar") (new-IsTallied "tar")

-- A stored block of nine bytes behind one other byte.
abbrev deflated : Bytes
deflated = 0xAB ∷ 9 ∷ 0 ∷ 0xF6 ∷ 0xFF ∷ 1 ∷ 2 ∷ 3 ∷ 4 ∷ 5 ∷ 6 ∷ 7 ∷ 8 ∷ 9 ∷ 0 ∷ []

nine_bytes : stored_block_bytes deflated ≡ 9
unfolding stored_block_bytes total_len scan_stored_blocks scan_loop anchors len_at nlen_at block_at
    next_at
nine_bytes = refl

scan_stored_blocks_sound_example : StoredFrom deflated 0 (scan_stored_blocks deflated)
scan_stored_blocks_sound_example = scan_stored_blocks_sound deflated

stored_block_bytes_bound_example : stored_block_bytes deflated ≤ length deflated
stored_block_bytes_bound_example = stored_block_bytes_bound deflated
