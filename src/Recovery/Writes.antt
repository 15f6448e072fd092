-- ===== src/Recovery/Writes.antt =====
-- Properties of what `recover` writes,
-- crates/phx_recovery/src/engine.rs.
use veraqis_recover.Prelude.{
  ◌≡◌, ◌⊎◌, inl, inr, refl, ap, Bool, true, false, Option, none, some, List, Bytes, if◌then◌else◌,
  take, All, All-append,
}
use veraqis_recover.Prelude.Texts.{String, text_eq}
use veraqis_recover.Prelude.Results.{Result, ok, err}
use veraqis_recover.Recovery.Model.{
  AnalysisResult, RecoveryError, RecoveryReport, RecoveryStrategy, DataSource, io,
  output_equals_source, no_applicable_strategy, strategy_failed, empty, read_all,
}
use veraqis_recover.Recovery.Select.{select}
use veraqis_recover.Recovery.Engine.{PassOutcome, no_outcome, Ending, run_passes, max_passes}
use veraqis_recover.Recovery.Verdict.{Services, RecoveryOptions}
use veraqis_recover.Recovery.Gate.{IsKept}
use veraqis_recover.Recovery.Passes.{run_passes-IsSound}
use veraqis_recover.Recovery.Recover.{
  Storage, Effect, create_dir_all, write, paths_equal, output_path_for, manifest_path_for, Commit,
  commit_file, commit_below, commit, manifest_from, write_manifest, Recovered, after_commit,
  finish_recovery, after_passes, recover_opened, recover,
}

-- Nothing but the output's folder, the output itself, which holds bytes that satisfy `P`, and its
-- sidecar.
abbrev pub IsWithin : (Bytes → Type 0) → Storage → String → Effect → Type 0
IsWithin P fs output_path (create_dir_all path) = fs.parent output_path ≡ some path
IsWithin P fs output_path (write path bytes) =
    ((path ≡ output_path) × P bytes) ⊎ (path ≡ manifest_path_for output_path)

if-ind {ℓ} : {A : Type 0} (Q : A → Type ℓ) (c : Bool) {x y : A} → Q x → Q y → Q (if c then x else y)
if-ind Q true qx qy = qx
if-ind Q false qx qy = qy

module _ (P : Bytes → Type 0) (fs : Storage) (output_path : String) where
  Within : List Effect → Type 0
  Within effects = All (IsWithin P fs output_path) effects

  commit_below-Within :
      (bytes : Bytes) (parent : Option String)
      → P bytes
      → fs.parent output_path ≡ parent
      → Within (commit_below fs bytes output_path parent).1
  unfolding commit_below commit_file Within
  commit_below-Within bytes none p e = (inl (refl, p), tt)
  commit_below-Within bytes (some parent) p e =
      if-ind (λ (c : Commit). Within c.1) (text_eq parent "") (inl (refl, p), tt)
        (if-ind (λ (c : Commit). Within c.1) (fs.can_create_dir parent) (e, (inl (refl, p), tt))
          (e, tt))

  manifest_from-Within :
      (source_path : String) (bytes : Bytes) (outcome : PassOutcome) (aggregate : RecoveryReport)
      (options : RecoveryOptions) (r : Result RecoveryError Bytes)
      → Within (manifest_from fs source_path output_path bytes outcome aggregate options r).1
  unfolding manifest_from Within
  manifest_from-Within source_path bytes outcome aggregate options (err e) = tt
  manifest_from-Within source_path bytes outcome aggregate options (ok source_bytes) =
      (inr refl, tt)

  after_commit-Within :
      (source_path : String) (source : DataSource) (options : RecoveryOptions)
      (outcome : PassOutcome) (aggregate : RecoveryReport) (bytes : Bytes) (done : Commit)
      → Within done.1
      → Within
          (after_commit fs source_path source output_path options outcome aggregate bytes done).1
  unfolding after_commit write_manifest Within
  after_commit-Within source_path source options outcome aggregate bytes (some e, effects) w = w
  after_commit-Within source_path source options outcome aggregate bytes (none, effects) w =
      if-ind (λ (r : Recovered). Within r.1) options.write_manifest
        (All-append (IsWithin P fs output_path) effects _ w
          (manifest_from-Within source_path bytes outcome aggregate options (read_all source)))
        w

  finish_recovery-Within :
      (source_path : String) (source : DataSource) (options : RecoveryOptions)
      (outcome : PassOutcome) (aggregate : RecoveryReport) (staged : Option Bytes)
      → ((b : Bytes) → staged ≡ some b → P b)
      → Within
          (finish_recovery fs source_path source output_path options outcome aggregate staged).1
  unfolding finish_recovery commit Within
  finish_recovery-Within source_path source options outcome aggregate none p = tt
  finish_recovery-Within source_path source options outcome aggregate (some bytes) p =
      if-ind (λ (r : Recovered). Within r.1) options.dry_run tt
        (after_commit-Within source_path source options outcome aggregate bytes
          (commit fs bytes output_path)
          (commit_below-Within bytes (fs.parent output_path) (p bytes refl) refl))

  after_passes-Within :
      (source_path : String) (source : DataSource) (options : RecoveryOptions) (ending : Ending)
      → ((outcome : PassOutcome) (b : Bytes) → ending.0 ≡ ok outcome → outcome.bytes ≡ some b → P b)
      → Within (after_passes fs source_path source output_path options ending).1
  unfolding after_passes Within
  after_passes-Within source_path source options (ok outcome, aggregate) p =
      finish_recovery-Within source_path source options outcome aggregate outcome.bytes
        (λ b. p outcome b refl)
  after_passes-Within source_path source options (err no_applicable_strategy, aggregate) p =
      finish_recovery-Within source_path source options no_outcome _ none (λ b e. cc)
  after_passes-Within source_path source options (err (io path), aggregate) p = tt
  after_passes-Within source_path source options (err output_equals_source, aggregate) p = tt
  after_passes-Within source_path source options (err (strategy_failed s why), aggregate) p = tt

-- `b` is an output that the gate let through, of one of the first three strategies selected for
-- the source at `source_path`.
abbrev pub IsRecovered :
    Storage
    → Services
    → List RecoveryStrategy
    → String
    → AnalysisResult
    → RecoveryOptions
    → Bytes
    → Type 0
IsRecovered fs env all_strategies source_path analysis options b =
    (source : DataSource) × (selected : List RecoveryStrategy) × (fs.open_source source_path
      ≡ some source)
    × (select all_strategies analysis options.forced_strategy ≡ ok selected)
    × IsKept env source analysis options (output_path_for fs source_path options)
        (take max_passes selected) b

module _ (fs : Storage) (env : Services) (all_strategies : List RecoveryStrategy)
    (source_path : String) (analysis : AnalysisResult) (options : RecoveryOptions) where
  opened-Within :
      (opened : Option DataSource)
      → fs.open_source source_path ≡ opened
      → All
          (IsWithin
            (IsRecovered fs env all_strategies source_path analysis options)
            fs
            (output_path_for fs source_path options))
          (recover_opened fs env all_strategies source_path
            (output_path_for fs source_path options)
            analysis
            options
            opened).1
  unfolding recover_opened Within
  opened-Within none e = tt
  opened-Within (some source) e =
      let ending =
        run_passes env all_strategies source analysis options
          (output_path_for fs source_path options)
          (record (empty (output_path_for fs source_path options)) {
            health_before = some analysis.health_score;
          }) in
      after_passes-Within (IsRecovered fs env all_strategies source_path analysis options) fs
        (output_path_for fs source_path options) source_path source options ending
        (λ outcome b ended bytes.
          let (selected, chosen, sound) =
            run_passes-IsSound env all_strategies source analysis options
              (output_path_for fs source_path options) _ outcome ending.1
              (ap (λ (r : Result RecoveryError PassOutcome). (r, ending.1)) ended) in
          (source, selected, e, chosen, (sound b bytes).0))

  -- A recovery creates no folder but the output's, and writes no file but the output and its
  -- sidecar. What it writes to the output is what the gate let through of one of the first three
  -- strategies selected for the source.
  pub recover_writes :
      All
        (IsWithin
          (IsRecovered fs env all_strategies source_path analysis options)
          fs
          (output_path_for fs source_path options))
        (recover fs env all_strategies source_path analysis options).1
  unfolding recover
  recover_writes =
      if-ind
        (λ (r : Recovered).
          All
            (IsWithin (IsRecovered fs env all_strategies source_path analysis options) fs
              (output_path_for fs source_path options))
            r.1)
        (paths_equal fs source_path (output_path_for fs source_path options)) tt
        (opened-Within (fs.open_source source_path) refl)
