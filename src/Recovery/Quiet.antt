-- ===== src/Recovery/Quiet.antt =====
-- Properties of the runs of `recover` without an output,
-- crates/phx_recovery/src/engine.rs.
use veraqis_recover.Prelude.{
  ◌≡◌, ◌⊎◌, inl, inr, refl, ap, ◌∙◌, Bool, true, false, Option, none, some, List, [], Bytes,
  if◌then◌else◌,
}
use veraqis_recover.Prelude.Texts.{String}
use veraqis_recover.Prelude.Results.{ok, err}
use veraqis_recover.Recovery.Model.{
  AnalysisResult, RecoveryReport, RecoveryStrategy, DataSource, io, output_equals_source,
  no_applicable_strategy, strategy_failed,
}
use veraqis_recover.Recovery.Select.{select, select_automatic, select_damaged}
use veraqis_recover.Recovery.Engine.{PassOutcome, no_outcome, Ending, run_selected, run_passes}
use veraqis_recover.Recovery.Verdict.{Services, RecoveryOptions}
use veraqis_recover.Recovery.Recover.{
  Storage, paths_equal, output_path_for, Recovered, finish_recovery, after_passes, recover_opened,
  recover,
}

-- The options and the analysis that call for no output.
unfoldable pub IsQuiet : AnalysisResult → RecoveryOptions → Type 0
IsQuiet analysis options =
    (options.dry_run ≡ true) ⊎ ((analysis.corruptions ≡ []) × (options.forced_strategy ≡ none))

finish_dry :
    (fs : Storage) (source_path : String) (source : DataSource) (out : String)
    (options : RecoveryOptions) (outcome : PassOutcome) (aggregate : RecoveryReport)
    (staged : Option Bytes)
    → options.dry_run ≡ true
    → (finish_recovery fs source_path source out options outcome aggregate staged).1 ≡ []
unfolding finish_recovery
finish_dry fs source_path source out options outcome aggregate none dry = refl
finish_dry fs source_path source out options outcome aggregate (some b) dry = rw dry refl

after_passes_dry :
    (fs : Storage) (source_path : String) (source : DataSource) (out : String)
    (options : RecoveryOptions) (ending : Ending)
    → options.dry_run ≡ true
    → (after_passes fs source_path source out options ending).1 ≡ []
unfolding after_passes
after_passes_dry fs source_path source out options (ok outcome, aggregate) dry =
    finish_dry fs source_path source out options outcome aggregate outcome.bytes dry
after_passes_dry fs source_path source out options (err no_applicable_strategy, aggregate) dry =
    finish_dry fs source_path source out options no_outcome _ none dry
after_passes_dry fs source_path source out options (err (io path), aggregate) dry = refl
after_passes_dry fs source_path source out options (err output_equals_source, aggregate) dry = refl
after_passes_dry fs source_path source out options (err (strategy_failed s why), aggregate) dry =
    refl

select-abstain :
    (all_strategies : List RecoveryStrategy) (analysis : AnalysisResult) (forced : Option String)
    → analysis.corruptions ≡ []
    → forced ≡ none
    → select all_strategies analysis forced ≡ err no_applicable_strategy
unfolding select select_automatic select_damaged
select-abstain all_strategies analysis none clean unforced = rw clean refl
select-abstain all_strategies analysis (some name) clean unforced = cc

-- Without a detected corruption, and without a forced strategy, the passes end at once.
pub run_passes-abstain :
    (env : Services) (all_strategies : List RecoveryStrategy) (source : DataSource)
    (analysis : AnalysisResult) (options : RecoveryOptions) (label : String)
    (aggregate : RecoveryReport)
    → analysis.corruptions ≡ []
    → options.forced_strategy ≡ none
    → run_passes env all_strategies source analysis options label aggregate
      ≡ (err no_applicable_strategy, aggregate)
unfolding run_passes run_selected
run_passes-abstain env all_strategies source analysis options label aggregate clean unforced =
    ap (run_selected env source analysis options label aggregate)
      (select-abstain all_strategies analysis options.forced_strategy clean unforced)

recover_opened_quiet :
    (fs : Storage) (env : Services) (all_strategies : List RecoveryStrategy)
    (source_path out : String) (analysis : AnalysisResult) (options : RecoveryOptions)
    (opened : Option DataSource)
    → IsQuiet analysis options
    → (recover_opened fs env all_strategies source_path out analysis options opened).1 ≡ []
unfolding recover_opened IsQuiet after_passes finish_recovery
recover_opened_quiet fs env all_strategies source_path out analysis options none quiet = refl
recover_opened_quiet fs env all_strategies source_path out analysis options (some source)
      (inl dry) =
    after_passes_dry fs source_path source out options _ dry
recover_opened_quiet fs env all_strategies source_path out analysis options (some source)
      (inr (clean, unforced)) =
    ap (λ (e : Ending). (after_passes fs source_path source out options e).1)
      (run_passes-abstain env all_strategies source analysis options out _ clean unforced)
    ∙ refl

-- A dry run touches no file, and neither does a recovery, without a forced strategy, of a source
-- in which no corruption was detected.
pub recover_quiet :
    (fs : Storage) (env : Services) (all_strategies : List RecoveryStrategy) (source_path : String)
    (analysis : AnalysisResult) (options : RecoveryOptions)
    → IsQuiet analysis options
    → (recover fs env all_strategies source_path analysis options).1 ≡ []
unfolding recover
recover_quiet fs env all_strategies source_path analysis options quiet =
    either (paths_equal fs source_path (output_path_for fs source_path options)) _ (
      recover_opened_quiet fs env all_strategies source_path
        (output_path_for fs source_path options) analysis options (fs.open_source source_path)
        quiet)
  where
    either :
        (c : Bool) (r : Recovered)
        → r.1 ≡ []
        → (if c then (err output_equals_source, []) else r).1 ≡ []
    either true r e = refl
    either false r e = e
