-- ===== src/Recovery/Passthrough.antt =====
-- Properties of what `recover_stream` returns,
-- crates/phx_recovery/src/engine.rs.
use veraqis_recover.Prelude.{
  ◌≡◌, ◌⊎◌, inl, inr, refl, sym, ap, Option, none, some, List, Bytes, length, take,
}
use veraqis_recover.Prelude.Texts.{String}
use veraqis_recover.Prelude.Results.{Result, ok, err, ok_inj, err-ne-ok}
use veraqis_recover.Recovery.Model.{
  AnalysisResult, RecoveryError, RecoveryReport, RecoveryStrategy, io, output_equals_source,
  no_applicable_strategy, strategy_failed,
}
use veraqis_recover.Recovery.Select.{select}
use veraqis_recover.Recovery.Engine.{Ending, run_passes, max_passes}
use veraqis_recover.Recovery.Verdict.{Services, RecoveryOptions}
use veraqis_recover.Recovery.Gate.{IsKept}
use veraqis_recover.Recovery.Passes.{run_passes-IsSound}
use veraqis_recover.Recovery.Stream.{
  stream_bytes, stream_out, analyze_stream, after_stream_passes, recover_stream,
}

abbrev Returned : Type 0
Returned = Result RecoveryError (Bytes × RecoveryReport)

stream_bytes-cases :
    (input : Bytes) (aggregate : RecoveryReport) (staged : Option Bytes) (out : Bytes)
    (report : RecoveryReport)
    → stream_bytes input aggregate staged ≡ ok (out, report)
    → ((staged ≡ none) × (out ≡ input)) ⊎ (staged ≡ some out)
unfolding stream_bytes
stream_bytes-cases input aggregate none out report e =
    inl (refl, sym (ap (λ (r : Bytes × RecoveryReport). r.0) (ok_inj {E = RecoveryError} e)))
stream_bytes-cases input aggregate (some bytes) out report e =
    inr (ap some (ap (λ (r : Bytes × RecoveryReport). r.0) (ok_inj {E = RecoveryError} e)))

-- The bytes returned are the input, or were let through by the gate, of one of the first three
-- strategies selected for the analysis of the input.
abbrev pub IsReturned :
    Services
    → List RecoveryStrategy
    → Bytes
    → String
    → RecoveryOptions
    → AnalysisResult
    → Bytes
    → Type 0
IsReturned env all_strategies input label options analysis out =
    (out ≡ input)
    ⊎ ((selected : List RecoveryStrategy) × (select all_strategies analysis options.forced_strategy
          ≡ ok selected)
        × IsKept env (record { path = label; len = length input; content = some input }) analysis
            options label (take max_passes selected) out)

after_stream_passes-IsReturned :
    (env : Services) (all_strategies : List RecoveryStrategy) (input : Bytes) (label : String)
    (options : RecoveryOptions) (analysis : AnalysisResult) (aggregate : RecoveryReport)
    (ending : Ending) (out : Bytes) (report : RecoveryReport)
    → run_passes env all_strategies
        (record { path = label; len = length input; content = some input })
        analysis
        options
        label
        aggregate
      ≡ ending
    → after_stream_passes input ending ≡ ok (out, report)
    → IsReturned env all_strategies input label options analysis out
unfolding after_stream_passes stream_out
after_stream_passes-IsReturned env all_strategies input label options analysis aggregate
      (ok outcome, after) out report run e =
    elim (stream_bytes-cases input after outcome.bytes out report e) [
      | inl (none_, same) ↦ inl same
      | inr kept ↦
          let (selected, chosen, sound) =
            run_passes-IsSound env all_strategies _ analysis options label aggregate outcome after
              run in
          inr (selected, chosen, (sound out kept).0)
    ]
after_stream_passes-IsReturned env all_strategies input label options analysis aggregate
      (err no_applicable_strategy, after) out report run e =
    elim (stream_bytes-cases input after none out report e) [
      | inl (none_, same) ↦ inl same
      | inr kept ↦ cc
    ]
after_stream_passes-IsReturned env all_strategies input label options analysis aggregate
      (err (io path), after) out report run e =
    absurd (err-ne-ok e)
after_stream_passes-IsReturned env all_strategies input label options analysis aggregate
      (err output_equals_source, after) out report run e =
    absurd (err-ne-ok e)
after_stream_passes-IsReturned env all_strategies input label options analysis aggregate
      (err (strategy_failed s why), after) out report run e =
    absurd (err-ne-ok e)

-- A stream recovery that succeeds has analyzed its input, and returns it unchanged, or bytes that
-- the gate let through, of one of the first three strategies selected for that analysis.
pub recover_stream_returns :
    (env : Services) (all_strategies : List RecoveryStrategy) (input : Bytes) (label : String)
    (options : RecoveryOptions) (out : Bytes) (report : RecoveryReport)
    → recover_stream env all_strategies input label options ≡ ok (out, report)
    → (analysis : AnalysisResult) × (env.analyze label input label ≡ ok analysis)
      × IsReturned env all_strategies input label options analysis out
unfolding recover_stream analyze_stream
recover_stream_returns env all_strategies input label options out report e =
    analyzed (env.analyze label input label) e
  where
    analyzed :
        (r : Result String AnalysisResult)
        → analyze_stream env all_strategies input label options r ≡ ok (out, report)
        → (analysis : AnalysisResult) × (r ≡ ok analysis)
          × IsReturned env all_strategies input label options analysis out
    analyzed (err why) h = absurd (err-ne-ok h)
    analyzed (ok analysis) h = (
      analysis,
      refl,
      after_stream_passes-IsReturned env all_strategies input label options analysis _ _ out report
          refl h,
    )
