-- ===== src/Strategies/GzMemberSalvage.antt =====
-- strategies/gz_member_salvage.rs: the verified members of a GZIP stream, as one new member.
use veraqis_recover.Prelude.{
  true, ◌⊎◌, inl, inr, Option, none, some, [], ◌∷◌, ◌++◌, Bytes, if◌then◌else◌, ◌==◌, length,
}
use veraqis_recover.Prelude.Texts.{String}
use veraqis_recover.Prelude.Results.{Result, ok, ◌>>=◌}
use veraqis_recover.Recovery.Model.{
  RecoveryError, RecoveryReport, number, text, plain, DataSource, read_all,
}
use veraqis_recover.Resync.{SalvageResult, verified_payload}
use veraqis_recover.Resync.Gzip.{Flate}
use veraqis_recover.Resync.GzipWalk.{salvage_gzip}
use veraqis_recover.Strategies.Common.{started}

-- The content wrapped by the encoder, or its failure.
unfoldable pub rewrapped : Bytes → SalvageResult → String ⊎ Bytes → Bytes × RecoveryReport
rewrapped sink salvage (inl error) = (
  sink,
  record (started "gz-member-salvage") {
    warnings = plain "re-encoding salvaged GZIP content failed" ∷ [];
  },
)
rewrapped sink salvage (inr out) = (
  sink ++ out,
  record (started "gz-member-salvage") {
    bytes_recovered = length (verified_payload salvage);
    bytes_lost = salvage.unverified_bytes;
    success = true;
    warnings =
        (text "salvaged "
          ∷ number salvage.members_verified
          ∷ text " CRC-verified GZIP member(s) ("
          ∷ number (length (verified_payload salvage))
          ∷ text " B exact content); dropped the corrupt member, re-wrapped as one clean member"
          ∷ [])
        ∷ [];
  },
)

unfoldable pub member_salvage_result : Flate → Bytes → SalvageResult → Bytes × RecoveryReport
member_salvage_result flate sink salvage =
    if salvage.members_verified == 0
    then (
      sink,
      record (started "gz-member-salvage") {
        warnings =
            plain "no GZIP member could be CRC-verified; nothing salvaged (falling through)" ∷ [];
      },
    )
    else if length (verified_payload salvage) == 0
    then (sink, started "gz-member-salvage")
    else rewrapped sink salvage (flate.encode (verified_payload salvage))

-- Nothing where the salvage panics.
unfoldable pub salvaged_members :
    Flate → Bytes → Option SalvageResult → Option (Bytes × RecoveryReport)
salvaged_members flate sink none = none
salvaged_members flate sink (some salvage) = some (member_salvage_result flate sink salvage)

unfoldable pub apply_member_salvage :
    Flate → DataSource → Bytes → Result RecoveryError (Option (Bytes × RecoveryReport))
apply_member_salvage flate source sink = do
  input ← read_all source
  ok (salvaged_members flate sink (salvage_gzip flate input))
