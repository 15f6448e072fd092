-- ===== src/Strategies/SevenZRestore.antt =====
-- strategies/sevenz_restore.rs: the 7z signature, behind the Start-Header CRC.
use veraqis_recover.Prelude.{true, ◌&&◌, Option, none, some, [], ◌∷◌, ◌++◌, Bytes, any, length}
use veraqis_recover.Prelude.Results.{Result, ok, ◌>>=◌}
use veraqis_recover.SevenZ.{SignatureRepair, repair_signature}
use veraqis_recover.Recovery.Model.{
  seven_z, RecoveryError, RecoveryReport, RecoveryStrategy, number, text, plain, safe, DataSource,
  read_all,
}
use veraqis_recover.Strategies.Common.{is_rule, is_format, started}

unfoldable pub restored : Bytes → Option SignatureRepair → Bytes × RecoveryReport
restored sink (some rep) = (
  sink ++ rep.bytes,
  record (started "sevenz-signature-restore") {
    bytes_recovered = length rep.bytes;
    success = true;
    warnings =
        (text "restored 7z signature ("
          ∷ number rep.bytes_written
          ∷ text " byte(s) at offset 0); verified by "
          ∷ text rep.verified_by
          ∷ [])
        ∷ [];
  },
)
restored sink none = (
  sink,
  record (started "sevenz-signature-restore") {
    warnings =
        plain "7z Start-Header CRC does not validate — abstaining (structure not provably intact)"
        ∷ [];
  },
)

unfoldable pub apply_signature_restore :
    DataSource → Bytes → Result RecoveryError (Bytes × RecoveryReport)
apply_signature_restore source sink = do
  bytes ← read_all source
  ok (restored sink (repair_signature bytes))

unfoldable pub sevenz_signature_restore : RecoveryStrategy
sevenz_signature_restore = record {
  name = "sevenz-signature-restore";
  technique = "SevenZSignatureRestore";
  risk = safe;
  handles = is_rule "7Z_MAGIC_001";
  predicted_outcome =
      λ c. plain "restore the 7z signature 37 7A BC AF 27 1C (gated by the Start-Header CRC)";
  can_apply = λ result. is_format seven_z result && any (is_rule "7Z_MAGIC_001") result.corruptions;
  priority = 85;
  apply = apply_signature_restore;
}
