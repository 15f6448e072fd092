-- ===== src/Recovery/Passes.antt =====
-- Properties of a run of `run_passes`,
-- crates/phx_recovery/src/engine.rs.
use veraqis_recover.Prelude.{
  ◌≡◌, ◌⊎◌, inl, inr, refl, sym, ap, ◌∙◌, true, false, some, List, [], ◌∷◌, Bytes, take, Bool-cases,
  some_inj,
}
use veraqis_recover.Prelude.Texts.{String}
use veraqis_recover.Prelude.Results.{Result, ok, err, ok_inj, err-ne-ok}
use mathlib.Core.List.{Memᴰ}
use veraqis_recover.Recovery.Model.{
  AnalysisResult, RecoveryError, RecoveryReport, RecoveryStrategy, DataSource,
}
use veraqis_recover.Recovery.Select.{select}
use veraqis_recover.Recovery.Engine.{
  PassOutcome, no_outcome, Staged, Round, go_on, break_at, stage, settle, after_round, after_stage,
  Ending, run_strategies, run_selected, run_passes, max_passes,
}
use veraqis_recover.Recovery.Verdict.{Services, RecoveryOptions, keep, verify, reanalyze_health}
use veraqis_recover.Recovery.Gate.{
  IsVerified, Warrant, byte_verified, health_gained, salvaged, verify-matches, Reason, verified_,
  better, steady, keep-Reason, IsKept, regressed-le, improved-lt, held-eq, not_empty, stage-ok,
  round_outcome, settle-outcome,
}

-- An outcome's bytes, where it has any, were kept by the gate, and are verified if it says so.
abbrev pub IsSound :
    Services
    → DataSource
    → AnalysisResult
    → RecoveryOptions
    → String
    → List RecoveryStrategy
    → PassOutcome
    → Type 0
IsSound env source analysis options label tried outcome =
    (b : Bytes)
    → outcome.bytes ≡ some b
    → IsKept env source analysis options label tried b
      × (outcome.output_verified ≡ true → IsVerified env analysis options b)

module _ (env : Services) (source : DataSource) (analysis : AnalysisResult)
    (options : RecoveryOptions) (label : String) (tried : List RecoveryStrategy) where
  warranted :
      (s : RecoveryStrategy) (staged : Staged)
      → verify env staged.sink analysis options.hash_type ≡ ok staged.integ
      → staged.after ≡ reanalyze_health env staged.sink label
      → Reason s analysis.health_score staged.after staged.integ.matches
      → Warrant env analysis options label s staged.sink
  warranted s staged v e (verified_ m) =
      byte_verified (verify-matches env staged.sink analysis options staged.integ v m)
  warranted s staged v e (better free i) =
      let (h, has, more) = improved-lt analysis.health_score staged.after i in
      health_gained free h (sym e ∙ has) more
  warranted s staged v e (steady free i terminal) =
      salvaged free terminal (sym e ∙ held-eq analysis.health_score staged.after i)

  staged-IsKept :
      (s : RecoveryStrategy) (staged : Staged)
      → Memᴰ s tried
      → stage env source analysis options label s ≡ ok staged
      → keep s staged.sink analysis.health_score staged.after staged.integ.matches ≡ true
      → IsKept env source analysis options label tried staged.sink
  staged-IsKept s staged m e k =
      let ((report, applied), verified, health) =
        stage-ok env source analysis options label s staged e in
      let (full, unregressed, why) =
        keep-Reason s staged.sink analysis.health_score staged.after staged.integ.matches k in
      record {
        strategy = s;
        tried_ = m;
        report = report;
        applied = applied;
        something = not_empty staged.sink full;
        no_regression =
            rw (sym health) (regressed-le analysis.health_score staged.after unregressed);
        warrant = warranted s staged verified health why;
      }

  round-IsSound :
      (s : RecoveryStrategy) (staged : Staged) (outcome : PassOutcome) (aggregate : RecoveryReport)
      → Memᴰ s tried
      → stage env source analysis options label s ≡ ok staged
      → IsSound env source analysis options label tried outcome
      → IsSound env source analysis options label tried
          (round_outcome (settle analysis options s staged outcome aggregate))
  round-IsSound s staged outcome aggregate m e sound =
      elim (settle-outcome analysis options s staged outcome aggregate) [
        | inl same ↦ rw same sound
        | inr (kept, now) ↦ rw now (λ b is_b. rw (sym (some_inj is_b)) (
          staged-IsKept s staged m e kept,
          verify-matches env staged.sink analysis options staged.integ
              (stage-ok env source analysis options label s staged e).1,
        ))
      ]

  after_round-IsSound :
      (rest : PassOutcome → RecoveryReport → Ending) (round : Round) (final : PassOutcome)
      (report : RecoveryReport)
      → ((next : PassOutcome) (r : RecoveryReport)
          → IsSound env source analysis options label tried next
          → rest next r ≡ (ok final, report)
          → IsSound env source analysis options label tried final)
      → IsSound env source analysis options label tried (round_outcome round)
      → after_round rest round ≡ (ok final, report)
      → IsSound env source analysis options label tried final
  unfolding after_round round_outcome
  after_round-IsSound rest (break_at kept merged) final report ih sound e =
      rw (sym (ok_inj {E = RecoveryError} (ap (λ (x : Ending). x.0) e))) sound
  after_round-IsSound rest (go_on next r) final report ih sound e = ih next r sound e

  after_stage-IsSound :
      (s : RecoveryStrategy) (outcome : PassOutcome) (aggregate : RecoveryReport)
      (rest : PassOutcome → RecoveryReport → Ending) (staged : Result RecoveryError Staged)
      (final : PassOutcome) (report : RecoveryReport)
      → Memᴰ s tried
      → stage env source analysis options label s ≡ staged
      → ((next : PassOutcome) (r : RecoveryReport)
          → IsSound env source analysis options label tried next
          → rest next r ≡ (ok final, report)
          → IsSound env source analysis options label tried final)
      → IsSound env source analysis options label tried outcome
      → after_stage analysis options s outcome aggregate rest staged ≡ (ok final, report)
      → IsSound env source analysis options label tried final
  unfolding after_stage
  after_stage-IsSound s outcome aggregate rest (err e) final report m staged ih sound h =
      absurd (err-ne-ok (ap (λ (x : Ending). x.0) h))
  after_stage-IsSound s outcome aggregate rest (ok st) final report m staged ih sound h =
      after_round-IsSound rest (settle analysis options s st outcome aggregate) final report ih
        (round-IsSound s st outcome aggregate m staged sound) h

  run_strategies-IsSound :
      (ss : List RecoveryStrategy) (outcome : PassOutcome) (aggregate : RecoveryReport)
      (final : PassOutcome) (report : RecoveryReport)
      → ((s : RecoveryStrategy) → Memᴰ s ss → Memᴰ s tried)
      → IsSound env source analysis options label tried outcome
      → run_strategies env source analysis options label ss outcome aggregate ≡ (ok final, report)
      → IsSound env source analysis options label tried final
  unfolding run_strategies
  run_strategies-IsSound [] outcome aggregate final report m sound e =
      rw (sym (ok_inj {E = RecoveryError} (ap (λ (x : Ending). x.0) e))) sound
  run_strategies-IsSound (s ∷ ss) outcome aggregate final report m sound e =
      after_stage-IsSound s outcome aggregate _ (stage env source analysis options label s) final
        report (m s (Memᴰ.head refl)) refl
        (λ next r sound_ h.
          run_strategies-IsSound ss next r final report (λ s' m'. m s' (Memᴰ.tail m')) sound_ h)
        sound e

pub run_passes-IsSound :
    (env : Services) (all_strategies : List RecoveryStrategy) (source : DataSource)
    (analysis : AnalysisResult) (options : RecoveryOptions) (label : String)
    (aggregate : RecoveryReport) (final : PassOutcome) (report : RecoveryReport)
    → run_passes env all_strategies source analysis options label aggregate ≡ (ok final, report)
    → (selected : List RecoveryStrategy) × (select all_strategies analysis options.forced_strategy
        ≡ ok selected)
      × IsSound env source analysis options label (take max_passes selected) final
unfolding run_passes run_selected
run_passes-IsSound env all_strategies source analysis options label aggregate final report e =
    selected_kept (select all_strategies analysis options.forced_strategy) e
  where
    selected_kept :
        (r : Result RecoveryError (List RecoveryStrategy))
        → run_selected env source analysis options label aggregate r ≡ (ok final, report)
        → (selected : List RecoveryStrategy) × (r ≡ ok selected)
          × IsSound env source analysis options label (take max_passes selected) final
    selected_kept (err e) h = absurd (err-ne-ok (ap (λ (x : Ending). x.0) h))
    selected_kept (ok selected) h = (
      selected,
      refl,
      run_strategies-IsSound env source analysis options label (take max_passes selected)
          (take max_passes selected) no_outcome aggregate final report (λ s m. m) (λ b none_. cc) h,
    )

-- When the passes end with an outcome that has bytes, the selection succeeded, and the bytes are
-- the output of one of its first three strategies that the gate let through: they are not empty,
-- their re-analysis fails or shows no lower health, and they match the reference hash, or the
-- strategy is not an inferred repair and they gain health, or hold it and the strategy is a
-- salvage. An outcome that says it is verified matches the reference hash.
pub run_passes-IsKept :
    (env : Services) (all_strategies : List RecoveryStrategy) (source : DataSource)
    (analysis : AnalysisResult) (options : RecoveryOptions) (label : String)
    (aggregate : RecoveryReport) (final : PassOutcome) (report : RecoveryReport) (b : Bytes)
    → run_passes env all_strategies source analysis options label aggregate ≡ (ok final, report)
    → final.bytes ≡ some b
    → (selected : List RecoveryStrategy) × (select all_strategies analysis options.forced_strategy
        ≡ ok selected)
      × IsKept env source analysis options label (take max_passes selected) b
      × ((final.output_verified ≡ false) ⊎ IsVerified env analysis options b)
run_passes-IsKept env all_strategies source analysis options label aggregate final report b e has =
    let (selected, chosen, sound) =
      run_passes-IsSound env all_strategies source analysis options label aggregate final report
        e in
    let (kept, verified) = sound b has in
    (
      selected,
      chosen,
      kept,
      elim (Bool-cases final.output_verified) [
        | inl yes_ ↦ inr (verified yes_)
        | inr no_ ↦ inl no_
      ],
    )
