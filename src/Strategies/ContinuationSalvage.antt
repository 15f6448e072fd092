-- ===== src/Strategies/ContinuationSalvage.antt =====
-- strategies/tar_continuation_salvage.rs: the verified members of a TAR, with a new terminator.
use veraqis_recover.Prelude.{
  ◌-◌, ◌*◌, ◌%◌, Bool, true, false, ◌&&◌, ◌||◌, Option, none, some, List, [], ◌∷◌, ◌++◌, Bytes,
  if◌then◌else◌, ltb, ◌==◌, length, get_slice?, replicate,
}
use veraqis_recover.Prelude.Results.{Result, ok, ◌>>=◌}
use veraqis_recover.Recovery.Model.{
  tar, RecoveryError, RecoveryReport, RecoveryStrategy, number, text, plain, lossy, DataSource,
  read_all,
}
use veraqis_recover.Resync.{
  SegmentKind, verified_gzip_member, verified_tar_member, stored_block_salvage, partial_inflate,
  Segment, SalvageResult,
}
use veraqis_recover.Resync.Tar.{blocks_of, salvage_tar}
use veraqis_recover.Strategies.Common.{is_rule, is_format, started}

-- `s.kind == SegmentKind::VerifiedTarMember`.
abbrev pub is_tar_member : SegmentKind → Bool
is_tar_member verified_tar_member = true
is_tar_member verified_gzip_member = false
is_tar_member stored_block_salvage = false
is_tar_member partial_inflate = false

abbrev pub or_empty : Option Bytes → Bytes
or_empty none = []
or_empty (some bytes) = bytes

-- The `for` loop: the original bytes of each verified member.
unfoldable pub spliced : Bytes → List Segment → Bytes
spliced input [] = []
spliced input (s ∷ segments) =
    let rest = spliced input segments in
    if is_tar_member s.kind
    then or_empty (get_slice? s.source_offset s.source_end input) ++ rest
    else rest

-- Zeros up to a whole number of blocks.
unfoldable pub fill_block : Bytes → Bytes
fill_block out =
    if length out % 512 == 0
    then out
    else out ++ replicate (blocks_of (length out) * 512 - length out) 0

-- The archive that is written.
unfoldable pub rebuilt : Bytes → List Segment → Bytes
rebuilt input segments = fill_block (spliced input segments) ++ replicate 1024 0

unfoldable pub continuation_result : Bytes → Bytes → SalvageResult → Bytes × RecoveryReport
continuation_result sink input salvage =
    if salvage.members_verified == 0
    then (
      sink,
      record (started "tar-continuation-salvage") {
        warnings =
            plain "no TAR member could be checksum-verified; nothing salvaged (falling through)"
            ∷ [];
      },
    )
    else if length (spliced input salvage.segments) == 0
    then (sink, started "tar-continuation-salvage")
    else (
      sink ++ rebuilt input salvage.segments,
      record (started "tar-continuation-salvage") {
        bytes_recovered = length (rebuilt input salvage.segments);
        bytes_lost = length input - length (rebuilt input salvage.segments);
        success = true;
        warnings =
            (text "salvaged "
              ∷ number salvage.members_verified
              ∷ text " checksum-verified TAR member(s); re-emitted with a fresh terminator"
              ∷ [])
            ∷ [];
      },
    )

unfoldable pub apply_continuation :
    DataSource → Bytes → Result RecoveryError (Bytes × RecoveryReport)
apply_continuation source sink = do
  input ← read_all source
  ok (continuation_result sink input (salvage_tar input))

unfoldable pub tar_continuation_salvage : RecoveryStrategy
tar_continuation_salvage = record {
  name = "tar-continuation-salvage";
  technique = "TarContinuationSalvage";
  risk = lossy;
  handles = λ c. is_rule "TAR_UST_001" c || is_rule "TAR_TERM_001" c;
  predicted_outcome = λ c.
      plain
        "recover every ustar-checksum-verified TAR member (ignore-zeros + header resync) and re-emit them as a valid archive; drop unreadable members";
  can_apply = λ result. is_format tar result && ltb 0 (length result.corruptions);
  priority = 45;
  apply = apply_continuation;
}
