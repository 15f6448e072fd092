-- ===== src/Recovery/Stream.antt =====
-- A recovery from bytes to bytes: `RecoveryEngine::recover_stream` of
-- crates/phx_recovery/src/engine.rs.
use veraqis_recover.Prelude.{Option, none, some, List, Bytes, length}
use veraqis_recover.Prelude.Texts.{String}
use veraqis_recover.Prelude.Results.{Result, ok, err}
use veraqis_recover.Recovery.Model.{
  AnalysisResult, RecoveryError, RecoveryReport, RecoveryStrategy, plain, no_applicable_strategy,
  strategy_failed, empty,
}
use veraqis_recover.Recovery.Engine.{PassOutcome, no_outcome, Ending, run_passes}
use veraqis_recover.Recovery.Verdict.{Services, RecoveryOptions}
use veraqis_recover.Recovery.Recover.{warn}

-- The bytes of a stream, and the report; no file is touched.
unfoldable pub stream_bytes :
    Bytes → RecoveryReport → Option Bytes → Result RecoveryError (Bytes × RecoveryReport)
stream_bytes input aggregate (some bytes) = ok (bytes, record aggregate { output_path = "-" })
stream_bytes input aggregate none =
    let noted = warn (plain "no repair applied; stream passed through unchanged") aggregate in
    ok (input, record noted { output_path = "-" })

unfoldable pub stream_out :
    Bytes → PassOutcome → RecoveryReport → Result RecoveryError (Bytes × RecoveryReport)
stream_out input outcome aggregate = stream_bytes input aggregate outcome.bytes

unfoldable pub after_stream_passes : Bytes → Ending → Result RecoveryError (Bytes × RecoveryReport)
after_stream_passes input (ok outcome, aggregate) = stream_out input outcome aggregate
after_stream_passes input (err no_applicable_strategy, aggregate) =
    stream_out input no_outcome aggregate
after_stream_passes input (err e, aggregate) = err e

-- An analysis that fails is an error of the "strategy" `analyze`.
unfoldable pub analyze_stream :
    Services
    → List RecoveryStrategy
    → Bytes
    → String
    → RecoveryOptions
    → Result String AnalysisResult
    → Result RecoveryError (Bytes × RecoveryReport)
analyze_stream env all_strategies input label options (err why) =
    err (strategy_failed "analyze" why)
analyze_stream env all_strategies input label options (ok analysis) = after_stream_passes input (
    run_passes env all_strategies
      (record { path = label; len = length input; content = some input }) analysis options label
      (record (empty "-") { health_before = some analysis.health_score }))

-- An analysis that fails is an error of the strategy `analyze`.
unfoldable pub recover_stream :
    Services
    → List RecoveryStrategy
    → Bytes
    → String
    → RecoveryOptions
    → Result RecoveryError (Bytes × RecoveryReport)
recover_stream env all_strategies input label options =
    analyze_stream env all_strategies input label options (env.analyze label input label)
