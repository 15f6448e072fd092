-- ===== src/Recovery/Engine.antt =====
-- The repair passes: `RecoveryEngine::run_passes` of crates/phx_recovery/src/engine.rs.
use veraqis_recover.Prelude.{
  ℕ, Bool, false, not, ◌||◌, ◌&&◌, Option, none, some, List, [], ◌∷◌, ◌++◌, Bytes, if◌then◌else◌,
  take,
}
use veraqis_recover.Prelude.Texts.{String}
use veraqis_recover.Prelude.Results.{Result, ok, err, ◌>>=◌}
use veraqis_recover.Recovery.Model.{
  AnalysisResult, IntegrityResult, RecoveryError, RecoveryReport, RecoveryStrategy, RepairPlan,
  DataSource, Message, text, merge, plan_of,
}
use veraqis_recover.Recovery.Select.{select}
use veraqis_recover.Recovery.Verdict.{
  Services, RecoveryOptions, reanalyze_health, verify, report_is_terminal, improved, keep, reason,
}

abbrev pub max_passes : ℕ
max_passes = 3

pub record PassOutcome : Type 0 where
  pub bytes : Option Bytes
  pub kept_plans : List RepairPlan
  pub output_verified : Bool

abbrev pub no_outcome : PassOutcome
no_outcome = record { bytes = none; kept_plans = []; output_verified = false }

unfoldable pub roll_back : RecoveryStrategy → Message → RecoveryReport → RecoveryReport
roll_back strategy why aggregate = record aggregate {
  rolled_back = aggregate.rolled_back ++ (strategy.name ∷ []);
  warnings =
      aggregate.warnings ++ ((text "rolled back " ∷ text strategy.name ∷ text ": " ∷ why) ∷ []);
}

-- A kept output, and the aggregate with its report merged in.
unfoldable pub keep_output :
    RecoveryStrategy
    → AnalysisResult
    → Bytes
    → RecoveryReport
    → Bool
    → Bool
    → RecoveryReport
    → PassOutcome × RecoveryReport
keep_output strategy analysis sink report verified success aggregate = (
  record { bytes = some sink; kept_plans = plan_of strategy analysis; output_verified = verified },
  merge aggregate (record report { success = success }),
)

-- What a pass leaves: the passes go on from it, or stop at it.
pub data Round : Type 0 where
  go_on : PassOutcome → RecoveryReport → Round
  break_at : PassOutcome → RecoveryReport → Round

-- What is known of a staged output.
pub record Staged : Type 0 where
  pub sink : Bytes
  pub report : RecoveryReport
  pub integ : IntegrityResult
  pub after : Option ℕ

unfoldable pub note_staged :
    Services → AnalysisResult → String → Bytes → RecoveryReport → IntegrityResult → Staged
note_staged env analysis label sink report integ =
    let after = reanalyze_health env sink label in
    record {
      sink = sink;
      report = record report {
        output_path = label;
        health_before = some analysis.health_score;
        post_recovery_integrity = some integ;
        health_after = after;
      };
      integ = integ;
      after = after;
    }

-- `apply`, the verification and the re-analysis of one pass.
unfoldable pub stage :
    Services
    → DataSource
    → AnalysisResult
    → RecoveryOptions
    → String
    → RecoveryStrategy
    → Result RecoveryError Staged
stage env source analysis options label strategy = do
  (sink, report) ← strategy.apply source []
  integ ← verify env sink analysis options.hash_type
  ok (note_staged env analysis label sink report integ)

unfoldable pub settle :
    AnalysisResult
    → RecoveryOptions
    → RecoveryStrategy
    → Staged
    → PassOutcome
    → RecoveryReport
    → Round
settle analysis options strategy staged outcome aggregate =
    let base = analysis.health_score in
    let verified = staged.integ.matches in
    let better = verified || improved base staged.after in
    let (kept, merged) =
      keep_output strategy analysis staged.sink staged.report verified
        (better || report_is_terminal strategy) aggregate in
    if keep strategy staged.sink base staged.after verified
    then (if better && not options.aggressive then break_at kept merged else go_on kept merged)
    else go_on outcome
        (roll_back strategy (reason strategy staged.sink base staged.after) aggregate)

-- How a run of passes ends: with an outcome or an error, and the aggregate as it then is.
abbrev pub Ending : Type 0
Ending = Result RecoveryError PassOutcome × RecoveryReport

unfoldable pub after_round : (PassOutcome → RecoveryReport → Ending) → Round → Ending
after_round rest (break_at kept merged) = (ok kept, merged)
after_round rest (go_on next report) = rest next report

-- An error of the strategy or of the hash ends the run.
unfoldable pub after_stage :
    AnalysisResult
    → RecoveryOptions
    → RecoveryStrategy
    → PassOutcome
    → RecoveryReport
    → (PassOutcome → RecoveryReport → Ending)
    → Result RecoveryError Staged
    → Ending
after_stage analysis options s outcome aggregate rest (err e) = (err e, aggregate)
after_stage analysis options s outcome aggregate rest (ok staged) =
    after_round rest (settle analysis options s staged outcome aggregate)

-- The loop over the strategies.
unfoldable pub run_strategies :
    Services
    → DataSource
    → AnalysisResult
    → RecoveryOptions
    → String
    → List RecoveryStrategy
    → PassOutcome
    → RecoveryReport
    → Ending
run_strategies env source analysis options label [] outcome aggregate = (ok outcome, aggregate)
run_strategies env source analysis options label (s ∷ ss) outcome aggregate =
    after_stage analysis options s outcome aggregate
      (λ next report. run_strategies env source analysis options label ss next report)
      (stage env source analysis options label s)

unfoldable pub run_selected :
    Services
    → DataSource
    → AnalysisResult
    → RecoveryOptions
    → String
    → RecoveryReport
    → Result RecoveryError (List RecoveryStrategy)
    → Ending
run_selected env source analysis options label aggregate (err e) = (err e, aggregate)
run_selected env source analysis options label aggregate (ok selected) =
    run_strategies env source analysis options label (take max_passes selected) no_outcome aggregate

unfoldable pub run_passes :
    Services
    → List RecoveryStrategy
    → DataSource
    → AnalysisResult
    → RecoveryOptions
    → String
    → RecoveryReport
    → Ending
run_passes env all_strategies source analysis options label aggregate =
    run_selected env source analysis options label aggregate
      (select all_strategies analysis options.forced_strategy)
