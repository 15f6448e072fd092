-- ===== src/Resync/GzipTests.antt =====
-- GZIP streams with an inflater that takes a body of ten bytes and leaves the last of them out, and one
-- that always fails.
use veraqis_recover.Prelude.{◌≡◌, refl, none, inr, [], ◌∷◌, ◌++◌, Bytes, length, take, replicate}
use veraqis_recover.Resync.Gzip.{
  done, fail, more, Flate, member_starts, starts_from, gz_header_len, fields_end, skip_extra,
  skip_text, skip_zstring, inflate_member, inflate_loop, read_trailer,
}
use veraqis_recover.Resync.GzipWalk.{
  salvage_gzip, salvage_from, gzip_loop, on_start, on_header, on_outcome, unverified, count_start,
  next_or, on_trailer, trailer_matches, keep_gzip_member, gzip_segment, label_of, close_gzip,
}
use veraqis_recover.Resync.GzipStarts.{headers_apart, header_fits}
use veraqis_recover.Resync.GzipSalvage.{IsGzipSalvage, salvage_gzip-IsGzipSalvage}
use veraqis_recover.Resync.{SalvageResult, new, push, is_verified, verified_payload, payload_of}
use veraqis_recover.Prelude.{Option, some, ℕ}

abbrev stored : Flate
stored = record {
  decoder = λ body. more (take 3 body) 3 (done 3);
  crc32 = λ bytes. length bytes;
  encode = λ bytes. inr bytes;
}

abbrev broken : Flate
broken = record {
  decoder = λ body. fail "corrupt deflate stream" 0;
  crc32 = λ bytes. length bytes;
  encode = λ bytes. inr bytes;
}

-- A member without optional fields: a body of three bytes, and the trailer.
abbrev one_member : Bytes
one_member = 0x1F ∷ 0x8B ∷ 0x08 ∷ replicate 7 0 ++ (1 ∷ 2 ∷ 3 ∷ 3 ∷ 0 ∷ 0 ∷ 0 ∷ 3 ∷ 0 ∷ 0 ∷ 0 ∷ [])

payload_length : Option SalvageResult → ℕ
payload_length none = 0
payload_length (some result) = length (verified_payload result)

three_bytes : payload_length (salvage_gzip stored one_member) ≡ 3
unfolding payload_length salvage_gzip salvage_from gzip_loop on_start on_header on_outcome
    count_start next_or on_trailer trailer_matches keep_gzip_member gzip_segment label_of close_gzip
    member_starts starts_from gz_header_len fields_end skip_extra skip_text inflate_member
    inflate_loop read_trailer new push is_verified verified_payload payload_of
three_bytes = refl

salvage_gzip-IsGzipSalvage_example :
    IsGzipSalvage stored one_member (salvage_gzip stored one_member)
unfolding headers_apart header_fits member_starts starts_from gz_header_len fields_end skip_extra
    skip_text next_or
salvage_gzip-IsGzipSalvage_example = salvage_gzip-IsGzipSalvage stored one_member refl

-- A file name that holds the magic of a member: when its body does not inflate, the body's slice would
-- end before it starts.
abbrev named_by_magic : Bytes
named_by_magic =
    0x1F ∷ 0x8B ∷ 0x08 ∷ 0x08 ∷ replicate 6 0 ++ (0x1F ∷ 0x8B ∷ 0x08 ∷ 0 ∷ replicate 20 1)

panics : salvage_gzip broken named_by_magic ≡ none
unfolding salvage_gzip salvage_from gzip_loop on_start on_header on_outcome count_start next_or
    unverified member_starts starts_from gz_header_len fields_end skip_extra skip_text skip_zstring
    inflate_member inflate_loop new label_of
panics = refl
