-- ===== src/Recovery/Gate.antt =====
-- Properties of the rollback gate of `run_passes`,
-- crates/phx_recovery/src/engine.rs.
use veraqis_recover.Prelude.{
  ℕ, ◌≤◌, ◌<◌, ◌≡◌, ◌≢◌, ◌⊎◌, inl, inr, refl, sym, ap, ◌∙◌, Bool, true, false, not, ◌||◌, ◌&&◌,
  Option, none, some, List, [], ◌∷◌, Bytes, if◌then◌else◌, arith, Bool-cases,
}
use veraqis_recover.Prelude.Texts.{String, text_eq_iff}
use veraqis_recover.Prelude.Results.{ok, >>=-eq-ok, ok_inj}
use mathlib.Core.List.{Memᴰ}
use veraqis_recover.Recovery.Model.{
  AnalysisResult, IntegrityResult, RecoveryError, RecoveryReport, RecoveryStrategy, RepairRisk,
  safe, inferred, lossy, DataSource, plan_of, without_manifest,
}
use veraqis_recover.Recovery.Engine.{
  PassOutcome, Staged, note_staged, Round, go_on, break_at, stage, settle, keep_output,
}
use veraqis_recover.Recovery.Verdict.{
  Services, RecoveryOptions, keep, verify, compare_expected, reanalyze_health, regressed, improved,
  held, is_empty, is_inferred, report_is_terminal,
}

-- The output `b` matches the reference hash of the analysis.
unfoldable pub IsVerified : Services → AnalysisResult → RecoveryOptions → Bytes → Type 0
IsVerified env analysis options b =
    (hash : String) × (analysis.integrity_result.expected_hash ≡ some hash)
    × (env.hash options.hash_type b ≡ ok hash)

-- The re-analysis of `b` gives the health `h`.
abbrev pub HasHealth : Services → String → Bytes → ℕ → Type 0
HasHealth env label b h = reanalyze_health env b label ≡ some h

-- Why an output may be kept.
pub data Warrant (env : Services) (analysis : AnalysisResult) (options : RecoveryOptions)
    (label : String) (s : RecoveryStrategy) (b : Bytes) : Type 0 where
  byte_verified : IsVerified env analysis options b → Warrant env analysis options label s b
  health_gained :
      s.risk ≢ inferred
      → (h : ℕ) → HasHealth env label b h
      → analysis.health_score < h
      → Warrant env analysis options label s b
  salvaged :
      s.risk ≢ inferred
      → report_is_terminal s ≡ true
      → HasHealth env label b analysis.health_score
      → Warrant env analysis options label s b

compare_expected-matches :
    (analysis : AnalysisResult) (actual : String) (expected : Option String)
    → (compare_expected analysis actual expected).matches ≡ true
    → expected ≡ some actual
unfolding compare_expected without_manifest
compare_expected-matches analysis actual none m = cc
compare_expected-matches analysis actual (some e) m = ap some ((text_eq_iff e actual).0 m)

verify-ok :
    (env : Services) (b : Bytes) (analysis : AnalysisResult) (options : RecoveryOptions)
    (integ : IntegrityResult)
    → verify env b analysis options.hash_type ≡ ok integ
    → (actual : String) × (env.hash options.hash_type b ≡ ok actual)
      × (integ ≡ compare_expected analysis actual analysis.integrity_result.expected_hash)
unfolding verify
verify-ok env b analysis options integ e = ground arith

pub verify-matches :
    (env : Services) (b : Bytes) (analysis : AnalysisResult) (options : RecoveryOptions)
    (integ : IntegrityResult)
    → verify env b analysis options.hash_type ≡ ok integ
    → integ.matches ≡ true
    → IsVerified env analysis options b
unfolding IsVerified
verify-matches env b analysis options integ e m =
    let (actual, hashed, same) = verify-ok env b analysis options integ e in
    (
      actual,
      compare_expected-matches analysis actual analysis.integrity_result.expected_hash
          (sym (ap (λ (i : IntegrityResult). i.matches) same) ∙ m),
      hashed,
    )

pub data Reason (s : RecoveryStrategy) (base : ℕ) (after : Option ℕ) (verified : Bool)
    : Type 0 where
  verified_ : verified ≡ true → Reason s base after verified
  better : s.risk ≢ inferred → improved base after ≡ true → Reason s base after verified
  steady :
      s.risk ≢ inferred
      → held base after ≡ true
      → report_is_terminal s ≡ true
      → Reason s base after verified

Reason-free :
    (s : RecoveryStrategy) (base : ℕ) (after : Option ℕ) (verified : Bool)
    → s.risk ≢ inferred
    → (verified || improved base after || (held base after && report_is_terminal s)) ≡ true
    → Reason s base after verified
Reason-free s base after verified free k = elim (Bool-cases verified) [
  | inl v ↦ verified_ v
  | inr unverified ↦ elim (Bool-cases (improved base after)) [
    | inl i ↦ better free i
    | inr unimproved ↦ steady free (ground arith) (ground arith)
  ]
]

Reason-by_risk :
    (s : RecoveryStrategy) (base : ℕ) (after : Option ℕ) (verified : Bool) (r : RepairRisk)
    → s.risk ≡ r
    → (if is_inferred r
        then verified
        else verified || improved base after || (held base after && report_is_terminal s))
      ≡ true
    → Reason s base after verified
Reason-by_risk s base after verified inferred e k = verified_ k
Reason-by_risk s base after verified safe e k = Reason-free s base after verified (λ q. cc) k
Reason-by_risk s base after verified lossy e k = Reason-free s base after verified (λ q. cc) k

pub keep-Reason :
    (s : RecoveryStrategy) (sink : Bytes) (base : ℕ) (after : Option ℕ) (verified : Bool)
    → keep s sink base after verified ≡ true
    → (is_empty sink ≡ false) × (regressed base after ≡ false) × Reason s base after verified
unfolding keep
keep-Reason s sink base after verified k =
    (ground arith, ground arith, Reason-by_risk s base after verified s.risk refl (ground arith))

-- A kept output: what it was staged by, and why it may be kept.
pub record IsKept (env : Services) (source : DataSource) (analysis : AnalysisResult)
    (options : RecoveryOptions) (label : String) (tried : List RecoveryStrategy) (b : Bytes)
    : Type 0 where
  pub strategy : RecoveryStrategy
  pub tried_ : Memᴰ strategy tried
  pub report : RecoveryReport
  pub applied : strategy.apply source [] ≡ ok (b, report)
  pub something : b ≢ []
  pub no_regression :
      (reanalyze_health env b label ≡ none)
      ⊎ ((h : ℕ) × HasHealth env label b h × (analysis.health_score ≤ h))
  pub warrant : Warrant env analysis options label strategy b

pub regressed-le :
    (base : ℕ) (after : Option ℕ)
    → regressed base after ≡ false
    → (after ≡ none) ⊎ ((h : ℕ) × (after ≡ some h) × (base ≤ h))
unfolding regressed
regressed-le base none holds = inl refl
regressed-le base (some h) holds = inr (h, refl, ground arith)

pub improved-lt :
    (base : ℕ) (after : Option ℕ)
    → improved base after ≡ true
    → (h : ℕ) × (after ≡ some h) × (base < h)
unfolding improved
improved-lt base after holds = ground arith

pub held-eq : (base : ℕ) (after : Option ℕ) → held base after ≡ true → after ≡ some base
unfolding held
held-eq base after holds = ground arith

pub not_empty : (b : Bytes) → is_empty b ≡ false → b ≢ []
not_empty [] e = λ q. cc
not_empty (x ∷ xs) e = λ q. cc

pub stage-ok :
    (env : Services) (source : DataSource) (analysis : AnalysisResult) (options : RecoveryOptions)
    (label : String) (s : RecoveryStrategy) (staged : Staged)
    → stage env source analysis options label s ≡ ok staged
    → ((report : RecoveryReport) × (s.apply source [] ≡ ok (staged.sink, report)))
      × (verify env staged.sink analysis options.hash_type ≡ ok staged.integ)
      × (staged.after ≡ reanalyze_health env staged.sink label)
unfolding stage note_staged
stage-ok env source analysis options label s staged e =
    let (pair, applied, e2) = >>=-eq-ok (s.apply source []) _ e in
    let (integ, verified, e3) = >>=-eq-ok (verify env pair.0 analysis options.hash_type) _ e2 in
    let same = ok_inj {E = RecoveryError} e3 in
    let same_sink = ap (λ (x : Staged). x.sink) same in
    (
      (pair.1, applied ∙ ap (λ (b : Bytes). ok (b, pair.1)) same_sink),
      sym (ap (λ (b : Bytes). verify env b analysis options.hash_type) same_sink)
          ∙ (verified ∙ ap (λ (x : Staged). ok x.integ) same),
      sym (ap (λ (x : Staged). x.after) same)
          ∙ ap (λ (b : Bytes). reanalyze_health env b label) same_sink,
    )

-- The outputs of a round.
unfoldable pub round_outcome : Round → PassOutcome
round_outcome (go_on outcome report) = outcome
round_outcome (break_at outcome report) = outcome

pub settle-outcome :
    (analysis : AnalysisResult) (options : RecoveryOptions) (s : RecoveryStrategy) (staged : Staged)
    (outcome : PassOutcome) (aggregate : RecoveryReport)
    → (round_outcome (settle analysis options s staged outcome aggregate) ≡ outcome)
      ⊎ ((keep s staged.sink analysis.health_score staged.after staged.integ.matches ≡ true)
          × (round_outcome (settle analysis options s staged outcome aggregate) ≡ record {
            bytes = some staged.sink;
            kept_plans = plan_of s analysis;
            output_verified = staged.integ.matches;
          }))
unfolding settle keep_output round_outcome
settle-outcome analysis options s staged outcome aggregate =
    let better_ = staged.integ.matches || improved analysis.health_score staged.after in
    elim (Bool-cases (keep s staged.sink analysis.health_score staged.after staged.integ.matches)) [
      | inl kept ↦ inr (
        kept,
        elim (Bool-cases (better_ && not options.aggressive)) [
          | inl last ↦ simp (kept, last)
          | inr more ↦ simp (kept, more)
        ],
      )
      | inr rolled ↦ inl (simp rolled)
    ]
