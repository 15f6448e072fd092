-- ===== src/Recovery/Verdict.antt =====
-- What the engine learns of a staged output, and whether it keeps it: `verify`,
-- `reanalyze_health`, `report_is_terminal` and the rollback gate of `run_passes` in
-- crates/phx_recovery/src/engine.rs. The analyzer and the hash are services that the engine calls.
use veraqis_recover.Prelude.{
  ℕ, Bool, true, false, not, ◌||◌, ◌&&◌, Option, none, some, List, [], ◌∷◌, Bytes, if◌then◌else◌,
  ltb, ◌==◌,
}
use veraqis_recover.Prelude.Texts.{String, text_eq, contains}
use veraqis_recover.Prelude.Results.{Result, ok, err}
use veraqis_recover.Recovery.Model.{
  AnalysisResult, IntegrityResult, RecoveryError, RecoveryStrategy, RepairRisk, inferred, Message,
  Piece, number, text, plain, strategy_failed, without_manifest,
}

pub data HashType : Type 0 where
  sha256 sha3_512 : HashType

-- `Engine::analyze_source`, for the path of the source of bytes, the bytes and the reported path,
-- and `integrity::hash_source`; an error is its text.
pub record Services : Type 0 where
  pub analyze : String → Bytes → String → Result String AnalysisResult
  pub hash : HashType → Bytes → Result String String

pub record RecoveryOptions : Type 0 where
  pub output_dir : String
  pub forced_strategy : Option String
  pub aggressive : Bool
  pub dry_run : Bool
  pub hash_type : HashType
  pub write_manifest : Bool
  pub sign_key : Option Bytes
  pub tool_name : String

unfoldable pub reanalyze_health : Services → Bytes → String → Option ℕ
reanalyze_health env sink label = elim (env.analyze "recovered" sink label) [
  | err _ ↦ none
  | ok analysis ↦ some analysis.health_score
]

unfoldable pub compare_expected : AnalysisResult → String → Option String → IntegrityResult
compare_expected analysis actual none = without_manifest actual
compare_expected analysis actual (some expected) = record {
  expected_hash = some expected;
  actual_hash = actual;
  matches = text_eq expected actual;
  manifest_present = analysis.integrity_result.manifest_present;
}

unfoldable pub verify :
    Services → Bytes → AnalysisResult → HashType → Result RecoveryError IntegrityResult
verify env sink analysis hash_type = elim (env.hash hash_type sink) [
  | err why ↦ err (strategy_failed "verification" why)
  | ok actual ↦ ok (compare_expected analysis actual analysis.integrity_result.expected_hash)
]

abbrev terminal_names : List String
terminal_names =
    "partial-extract" ∷ "forensic-carve" ∷ "zip-rebuild" ∷ "gz-member-salvage"
    ∷ "tar-continuation-salvage" ∷ []

unfoldable pub report_is_terminal : RecoveryStrategy → Bool
report_is_terminal strategy = contains strategy.name terminal_names

unfoldable pub regressed : ℕ → Option ℕ → Bool
regressed base none = false
regressed base (some h) = ltb h base

unfoldable pub improved : ℕ → Option ℕ → Bool
improved base none = false
improved base (some h) = ltb base h

unfoldable pub held : ℕ → Option ℕ → Bool
held base none = false
held base (some h) = h == base

abbrev pub is_inferred : RepairRisk → Bool
is_inferred inferred = true
is_inferred _ = false

abbrev pub is_empty : Bytes → Bool
is_empty [] = true
is_empty (_ ∷ _) = false

-- The gate: whether a staged output is kept.
unfoldable pub keep : RecoveryStrategy → Bytes → ℕ → Option ℕ → Bool → Bool
keep strategy sink base after verified =
    not (is_empty sink)
    && not (regressed base after)
    && (if is_inferred strategy.risk
        then verified
        else verified || improved base after || (held base after && report_is_terminal strategy))

abbrev health_text : Option ℕ → Piece
health_text none = text "?"
health_text (some h) = number h

unfoldable pub reason : RecoveryStrategy → Bytes → ℕ → Option ℕ → Message
reason strategy sink base after =
    if is_empty sink
    then plain "staged no output (nothing salvageable)"
    else if is_inferred strategy.risk
    then plain "inferred repair not byte-verified (a fitted verifier cannot justify keeping)"
    else text "health "
      ∷ number base
      ∷ text " -> "
      ∷ health_text after
      ∷ text " (no improvement)"
      ∷ []
