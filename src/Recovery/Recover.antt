-- ===== src/Recovery/Recover.antt =====
-- A recovery from file to file: `RecoveryEngine::recover`,
-- `commit`, `write_manifest` and `output_path_for` of
-- crates/phx_recovery/src/engine.rs. Paths, the files and the signed manifest are services.
use veraqis_recover.Prelude.{Bool, Option, none, some, List, [], ◌∷◌, ◌++◌, Bytes, if◌then◌else◌}
use veraqis_recover.Prelude.Texts.{String, text_eq, text_append}
use veraqis_recover.Prelude.Results.{Result, ok, err}
use veraqis_recover.Recovery.Model.{
  AnalysisResult, RecoveryError, RecoveryReport, RecoveryStrategy, RepairPlan, DataSource, Message,
  text, plain, io, output_equals_source, no_applicable_strategy, strategy_failed, empty, read_all,
}
use veraqis_recover.Recovery.Engine.{PassOutcome, no_outcome, Ending, run_passes}
use veraqis_recover.Recovery.Verdict.{Services, RecoveryOptions}

-- The file system, the equality of paths, and the manifest's text: `RepairManifest::build(..).to_json()`. What fails is
-- `none` or `false`.
pub record Storage : Type 0 where
  pub open_source : String → Option DataSource
  pub canonicalize : String → Option String
  pub path_eq : String → String → Bool
  pub file_name : String → Option String
  pub join : String → String → String
  pub parent : String → Option String
  pub can_create_dir : String → Bool
  pub can_write : String → Bool
  pub manifest_text :
      String
      → String
      → Bytes
      → Bytes
      → List RepairPlan
      → RecoveryReport
      → Bool
      → RecoveryOptions
      → Bytes

-- What is done to the files, in order, whether or not it succeeds.
pub data Effect : Type 0 where
  create_dir_all : String → Effect
  write : String → Bytes → Effect

unfoldable pub paths_equal : Storage → String → String → Bool
paths_equal fs a b = literal (fs.canonicalize a) (fs.canonicalize b)
  where
    literal : Option String → Option String → Bool
    literal (some ca) (some cb) = fs.path_eq ca cb
    literal _ _ = fs.path_eq a b

unfoldable pub output_path_for : Storage → String → RecoveryOptions → String
output_path_for fs source_path options =
    fs.join options.output_dir (text_append (named (fs.file_name source_path)) ".recovered")
  where
    named : Option String → String
    named (some name) = name
    named none = "output"

abbrev pub manifest_path_for : String → String
manifest_path_for output_path = text_append output_path ".phxr.json"

unfoldable pub warn : Message → RecoveryReport → RecoveryReport
warn message report = record report { warnings = report.warnings ++ (message ∷ []) }

-- The effects of `commit`, and its error.
abbrev pub Commit : Type 0
Commit = Option RecoveryError × List Effect

unfoldable pub commit_file : Storage → Bytes → String → List Effect → Commit
commit_file fs bytes output_path before = (
  if fs.can_write output_path then none else some (io output_path),
  before ++ (write output_path bytes ∷ []),
)

unfoldable pub commit_below : Storage → Bytes → String → Option String → Commit
commit_below fs bytes output_path none = commit_file fs bytes output_path []
commit_below fs bytes output_path (some parent) =
    if text_eq parent ""
    then commit_file fs bytes output_path []
    else if fs.can_create_dir parent
    then commit_file fs bytes output_path (create_dir_all parent ∷ [])
    else (some (io parent), create_dir_all parent ∷ [])

unfoldable pub commit : Storage → Bytes → String → Commit
commit fs bytes output_path = commit_below fs bytes output_path (fs.parent output_path)

-- The sidecar's result and effects.
abbrev pub Sidecar : Type 0
Sidecar = Result RecoveryError String × List Effect

unfoldable pub manifest_from :
    Storage
    → String
    → String
    → Bytes
    → PassOutcome
    → RecoveryReport
    → RecoveryOptions
    → Result RecoveryError Bytes
    → Sidecar
manifest_from fs source_path output_path bytes outcome aggregate options (err e) = (err e, [])
manifest_from fs source_path output_path bytes outcome aggregate options (ok source_bytes) =
    let path = manifest_path_for output_path in
    let manifest =
      fs.manifest_text source_path output_path source_bytes bytes outcome.kept_plans aggregate
        outcome.output_verified options in
    (if fs.can_write path then ok path else err (io path), write path manifest ∷ [])

-- The source is read again, and the manifest's text written beside the output.
unfoldable pub write_manifest :
    Storage
    → String
    → DataSource
    → String
    → Bytes
    → PassOutcome
    → RecoveryReport
    → RecoveryOptions
    → Sidecar
write_manifest fs source_path source output_path bytes outcome aggregate options =
    manifest_from fs source_path output_path bytes outcome aggregate options (read_all source)

-- A recovery's result, and what it did to the files.
abbrev pub Recovered : Type 0
Recovered = Result RecoveryError RecoveryReport × List Effect

unfoldable pub error_text : RecoveryError → Message
error_text (io path) = text "I/O error on " ∷ text path ∷ []
error_text output_equals_source = plain "recovery output path must differ from the source path"
error_text no_applicable_strategy = plain "no applicable recovery strategy for this damage"
error_text (strategy_failed strategy reason) =
    text "strategy '" ∷ text strategy ∷ text "' failed: " ∷ text reason ∷ []

unfoldable pub note_manifest : Result RecoveryError String → RecoveryReport → RecoveryReport
note_manifest (ok path) aggregate = record aggregate { manifest_path = some path }
note_manifest (err e) aggregate =
    warn (text "repair manifest not written: " ∷ error_text e) aggregate

-- The last warnings, and the output path.
unfoldable pub close_report :
    String → RecoveryOptions → PassOutcome → RecoveryReport → RecoveryReport
close_report output_path options outcome aggregate =
    record (if options.dry_run
      then warn (plain "dry-run: no output written") aggregate
      else unrepaired outcome.bytes) { output_path = output_path }
  where
    unrepaired : Option Bytes → RecoveryReport
    unrepaired none = warn (plain "no repair improved health; source left unchanged") aggregate
    unrepaired (some _) = aggregate

unfoldable pub after_commit :
    Storage
    → String
    → DataSource
    → String
    → RecoveryOptions
    → PassOutcome
    → RecoveryReport
    → Bytes
    → Commit
    → Recovered
after_commit fs source_path source output_path options outcome aggregate bytes (some e, effects) =
    (err e, effects)
after_commit fs source_path source output_path options outcome aggregate bytes (none, effects) =
    let (result, more) =
      write_manifest fs source_path source output_path bytes outcome aggregate options in
    if options.write_manifest
    then (
      ok (close_report output_path options outcome (note_manifest result aggregate)),
      effects ++ more,
    )
    else (ok (close_report output_path options outcome aggregate), effects)

unfoldable pub finish_recovery :
    Storage
    → String
    → DataSource
    → String
    → RecoveryOptions
    → PassOutcome
    → RecoveryReport
    → Option Bytes
    → Recovered
finish_recovery fs source_path source output_path options outcome aggregate none =
    (ok (close_report output_path options outcome aggregate), [])
finish_recovery fs source_path source output_path options outcome aggregate (some bytes) =
    if options.dry_run
    then (ok (close_report output_path options outcome aggregate), [])
    else after_commit fs source_path source output_path options outcome aggregate bytes
        (commit fs bytes output_path)

-- Where no strategy applies, the recovery abstains.
unfoldable pub after_passes :
    Storage → String → DataSource → String → RecoveryOptions → Ending → Recovered
after_passes fs source_path source output_path options (ok outcome, aggregate) =
    finish_recovery fs source_path source output_path options outcome aggregate outcome.bytes
after_passes fs source_path source output_path options (err no_applicable_strategy, aggregate) =
    finish_recovery fs source_path source output_path options no_outcome
      (warn (plain "no repairable defects detected; nothing to recover (abstain)") aggregate) none
after_passes fs source_path source output_path options (err e, aggregate) = (err e, [])

unfoldable pub recover_opened :
    Storage
    → Services
    → List RecoveryStrategy
    → String
    → String
    → AnalysisResult
    → RecoveryOptions
    → Option DataSource
    → Recovered
recover_opened fs env all_strategies source_path output_path analysis options none =
    (err (io source_path), [])
recover_opened fs env all_strategies source_path output_path analysis options (some source) =
    after_passes fs source_path source output_path options (
      run_passes env all_strategies source analysis options output_path
        (record (empty output_path) { health_before = some analysis.health_score }))

unfoldable pub recover :
    Storage
    → Services
    → List RecoveryStrategy
    → String
    → AnalysisResult
    → RecoveryOptions
    → Recovered
recover fs env all_strategies source_path analysis options =
    let output_path = output_path_for fs source_path options in
    if paths_equal fs source_path output_path
    then (err output_equals_source, [])
    else recover_opened fs env all_strategies source_path output_path analysis options
        (fs.open_source source_path)
