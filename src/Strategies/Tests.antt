-- ===== src/Strategies/Tests.antt =====
-- Runs of the strategies on small sources.
use veraqis_recover.Prelude.{
  ◌/◌, ◌++◌, ◌≡◌, inl, refl, true, some, [], ◌∷◌, Bytes, IsByte, replicate-IsByte, all-IsByte, All,
  All-append, length, take, replicate, arith,
}
use veraqis_recover.Recovery.Model.{DataSource}
use veraqis_recover.Prelude.Results.{ok}
use veraqis_recover.Recovery.Model.{RecoveryReport}
use veraqis_recover.Resync.Build.{
  tar_member, member_header, checksummed, write_at, write_octal, header_fields, byte_sum, padded,
}
use veraqis_recover.Ustar.{octal_text, octal_fixed}
use veraqis_recover.Strategies.ContinuationSalvage.{apply_continuation}
use veraqis_recover.Strategies.Resalvage.{IsOutcome, apply_continuation_resalvages}
use veraqis_recover.Strategies.SizeResync.{apply_size_resync}
use veraqis_recover.Strategies.ResyncArchive.{IsResynced, apply_size_resync_salvages}
use veraqis_recover.Resync.Gzip.{Flate, done, more}
use veraqis_recover.Strategies.Behaves.{Behaves}
use veraqis_recover.Strategies.Runs.{strategies, strategies_checked}
use veraqis_recover.Strategies.GzBody.{
  read_to_end, gz_body_start, pass_extra, pass_names, pass_name,
}
use veraqis_recover.Strategies.GzRestore.{inflated_body, apply_trailer_recompute}
use veraqis_recover.Strategies.ForensicCarve.{
  begins, hits_at, hits_from, insert_hit, sort_hits, scan_signatures, decimal_text, carved_name,
}
use veraqis_recover.Strategies.GzTrailer.{IsTrailerOutcome, apply_trailer_recompute_retrails}
use veraqis_recover.Strategies.TarRepair.{terminate, fix_checksums}
use veraqis_recover.Strategies.Headers.{headers_valid, fix_checksums-headers_valid}
use veraqis_recover.Strategies.Terminator.{terminate_terminates}

abbrev two_bytes : Bytes
two_bytes = 1 ∷ 2 ∷ []

abbrev small_source : DataSource
small_source = record { path = "a.tar"; len = 3; content = some two_bytes }

terminate_terminates_example :
    ((front : Bytes) × (terminate two_bytes ≡ front ++ replicate 1024 0))
    × (take (length two_bytes) (terminate two_bytes) ≡ two_bytes)
    × (terminate (terminate two_bytes) ≡ terminate two_bytes)
terminate_terminates_example = terminate_terminates two_bytes

-- A header block with the magic, and no checksum.
abbrev magic : Bytes
magic = b'u' ∷ b's' ∷ b't' ∷ b'a' ∷ b'r' ∷ []

abbrev bare_header : Bytes
bare_header = replicate 257 0 ++ (magic ++ replicate 250 0)

bare_header-IsByte : All IsByte bare_header
bare_header-IsByte =
    All-append IsByte (replicate 257 0) (magic ++ replicate 250 0) (replicate-IsByte 257) (
      All-append IsByte magic (replicate 250 0)
        (omega arith, (omega arith, (omega arith, (omega arith, (omega arith, tt)))))
        (replicate-IsByte 250))

fix_checksums-headers_valid_example :
    headers_valid (length bare_header / 512) 0 (fix_checksums bare_header).0 ≡ true
fix_checksums-headers_valid_example = fix_checksums-headers_valid bare_header bare_header-IsByte

-- A header without a checksum, with its data, and a member with its own.
abbrev tar_bytes : Bytes
tar_bytes = bare_header ++ (replicate 512 1 ++ tar_member (b'a' ∷ []) (b'h' ∷ b'i' ∷ []))

short : length tar_bytes ≡ 2048
unfolding tar_member member_header checksummed write_at write_octal header_fields byte_sum padded
    octal_text octal_fixed
short = refl

tar_bytes-IsByte : All IsByte tar_bytes
unfolding tar_member member_header checksummed write_at write_octal header_fields byte_sum padded
    octal_text octal_fixed
tar_bytes-IsByte = all-IsByte tar_bytes refl

abbrev tar_source : DataSource
tar_source = record { path = "b.tar"; len = 2048; content = some tar_bytes }

apply_continuation_resalvages_example :
    (out : Bytes × RecoveryReport) × (apply_continuation tar_source (9 ∷ []) ≡ ok out)
    × IsOutcome (9 ∷ []) tar_bytes out
apply_continuation_resalvages_example =
    apply_continuation_resalvages tar_source (9 ∷ []) tar_bytes refl (omega (arith, short))

apply_size_resync_salvages_example :
    (out : Bytes × RecoveryReport) × (apply_size_resync tar_source (9 ∷ []) ≡ ok (some out))
    × IsResynced (9 ∷ []) tar_bytes out
apply_size_resync_salvages_example =
    apply_size_resync_salvages tar_source (9 ∷ []) tar_bytes refl tar_bytes-IsByte
      (omega (arith, short))

-- flate2 in a small way: a body of stored bytes, and their count for a checksum.
abbrev small_flate : Flate
small_flate = record {
  decoder = λ body. more body (length body) (done (length body));
  crc32 = λ bytes. length bytes;
  encode = λ bytes. inl "no encoder";
}

abbrev gz_bytes : Bytes
gz_bytes = 0x1F ∷ 0x8B ∷ 0x08 ∷ replicate 7 0 ++ replicate 20 5

abbrev gz_source : DataSource
gz_source = record { path = "c.gz"; len = 30; content = some gz_bytes }

strategies_checked_example : All (Behaves gz_source (9 ∷ [])) (strategies small_flate)
strategies_checked_example = strategies_checked gz_source (9 ∷ []) small_flate

apply_trailer_recompute_retrails_example :
    (out : Bytes × RecoveryReport) × (apply_trailer_recompute small_flate gz_source (9 ∷ [])
      ≡ ok out)
    × IsTrailerOutcome small_flate (9 ∷ []) gz_bytes out
unfolding inflated_body read_to_end gz_body_start pass_extra pass_names pass_name
apply_trailer_recompute_retrails_example =
    apply_trailer_recompute_retrails small_flate gz_source (9 ∷ []) gz_bytes refl (omega arith)

-- Two bytes, a ZIP header and a PDF header.
abbrev carve_bytes : Bytes
carve_bytes = 0 ∷ 0 ∷ b'P' ∷ b'K' ∷ 3 ∷ 4 ∷ 9 ∷ b'%' ∷ b'P' ∷ b'D' ∷ b'F' ∷ b'-' ∷ []

abbrev carve_source : DataSource
carve_source = record { path = "d.bin"; len = 12; content = some carve_bytes }

two_hits : scan_signatures carve_bytes ≡ (2, "zip") ∷ (7, "pdf") ∷ []
unfolding scan_signatures sort_hits insert_hit hits_from hits_at begins
two_hits = refl

carved_names : carved_name 17 "zip" ≡ "carved-0017.zip"
unfolding carved_name decimal_text
carved_names = refl
