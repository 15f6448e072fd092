-- ===== src/Evidence/Guards.antt =====
-- Properties of the guards of crates/phx_recovery/src/evidence/mod.rs.
use Prim.Native.String.{String}
use text.Mathlib.Text.{◌==◌ as str_eq}
use text.Mathlib.TextEquality.{eq_iff}
use veraqis_recover.Prelude.{
  ℕ, ◌+◌, ◌-◌, ◌^◌, ◌≤◌, ◌<◌, ◌≡◌, ◌≢◌, ◌⊎◌, ◌↔◌, inl, inr, refl, ap, ◌∙◌, Bool, true, false, not,
  ◌&&◌, List, [], ◌∷◌, Option, none, some, leb, All, arith, if◌then◌else◌, ◌==◌, min, Option-cases,
}
use veraqis_recover.Evidence.{
  Axis, probabilistic, logical, suggestion, EvidenceClass, exact_erasure, structural_unique,
  Verifier, SolvedAgainst, EvidenceRecord, ok, err, EvidenceError, evidence_bits, bits_on,
  sum_widths, saturating_add, overlaps, coincides, first_tautology, after_tautology, class_guard,
  finish, emits, can_emit, raises, raises_health, is_some, is_empty, no_independent_verifier,
  untrusted_erasure_target, health_min_bits,
}

-- The total width, as a plain sum.
abbrev pub total_width : List Verifier → ℕ
total_width [] = 0
total_width (v ∷ vs) = v.width + total_width vs

abbrev pub on_probabilistic : Axis → ℕ → ℕ
on_probabilistic probabilistic n = n
on_probabilistic logical n = 0
on_probabilistic suggestion n = 0

sum_widths-total_width :
    (vs : List Verifier) (acc : ℕ)
    → acc ≤ 2 ^ 32 - 1
    → sum_widths acc vs ≡ min (acc + total_width vs) (2 ^ 32 - 1)
unfolding sum_widths saturating_add
sum_widths-total_width [] acc h = omega arith
sum_widths-total_width (v ∷ vs) acc h =
    omega (arith, sum_widths-total_width vs (saturating_add acc v.width) (omega arith))

-- The bits of a probabilistic record are the widths' sum, cut at the top of `u32`; a record on
-- another axis has none.
pub evidence_bits-total_width :
    (r : EvidenceRecord)
    → evidence_bits r
      ≡ on_probabilistic r.axis (min (total_width r.independent_verifiers) (2 ^ 32 - 1))
unfolding evidence_bits
evidence_bits-total_width r = bits r.axis r.independent_verifiers
  where
    bits :
        (a : Axis) (vs : List Verifier)
        → bits_on a vs ≡ on_probabilistic a (min (total_width vs) (2 ^ 32 - 1))
    bits probabilistic vs = omega (arith, sum_widths-total_width vs 0 (omega arith))
    bits logical vs = refl
    bits suggestion vs = refl

-- The verifier is of another kind than the target, or their regions are apart.
abbrev pub IsApart : Verifier → SolvedAgainst → Type 0
IsApart v t = (t.kind ≢ v.kind) ⊎ (v.region.1 ≤ t.region.0) ⊎ (t.region.1 ≤ v.region.0)

abbrev pub IsIndependent : List SolvedAgainst → Verifier → Type 0
IsIndependent targets v = All (IsApart v) targets

IsApart-iff :
    (v : Verifier) (t : SolvedAgainst)
    → ((str_eq t.kind v.kind && overlaps t.region v.region) ≡ false) ↔ IsApart v t
unfolding overlaps
IsApart-iff v t =
    (λ e. ground (arith, eq_iff t.kind v.kind), λ h. ground (arith, eq_iff t.kind v.kind))

coincides_iff :
    (targets : List SolvedAgainst) (v : Verifier)
    → (coincides targets v ≡ false) ↔ IsIndependent targets v
unfolding coincides
coincides_iff [] v = (λ e. tt, λ h. refl)
coincides_iff (t ∷ ts) v = (
  λ e. ground (arith, IsApart-iff v t, coincides_iff ts v),
  λ h. ground (arith, IsApart-iff v t, coincides_iff ts v),
)

first_tautology_iff :
    (targets : List SolvedAgainst) (vs : List Verifier)
    → (first_tautology targets vs ≡ none) ↔ All (IsIndependent targets) vs
unfolding first_tautology
first_tautology_iff targets [] = (λ e. tt, λ h. refl)
first_tautology_iff targets (v ∷ vs) = (
  λ e. ground (arith, coincides_iff targets v, first_tautology_iff targets vs),
  λ h. ground (arith, coincides_iff targets v, first_tautology_iff targets vs),
)

-- What a class must show: a trusted target for an erasure, some evidence bits for the other
-- probabilistic classes, nothing on the other axes.
abbrev pub Basis : Axis → EvidenceClass → EvidenceRecord → Type 0
Basis probabilistic exact_erasure r = r.target_trust ≢ none
Basis probabilistic _ r = 0 < total_width r.independent_verifiers
Basis _ _ r = Unit

is_some_iff : (o : Option String) → (is_some o ≡ true) ↔ (o ≢ none)
unfolding is_some
is_some_iff none = (λ e. cc, λ h. absurd (h refl))
is_some_iff (some x) = (λ e f. cc, λ h. refl)

kept_iff :
    (b : Bool) (r : EvidenceRecord) (x : EvidenceError)
    → ((if b then ok r else err x) ≡ ok r) ↔ (b ≡ true)
kept_iff true r x = (λ e. refl, λ e. refl)
kept_iff false r x = (λ e. cc, λ e. cc)

refused_iff :
    (b : Bool) (r : EvidenceRecord) (x : EvidenceError)
    → ((if b then err x else ok r) ≡ ok r) ↔ (b ≡ false)
refused_iff true r x = (λ e. cc, λ e. cc)
refused_iff false r x = (λ e. refl, λ e. refl)

bits_on_probabilistic :
    (r : EvidenceRecord)
    → r.axis ≡ probabilistic
    → evidence_bits r ≡ min (total_width r.independent_verifiers) (2 ^ 32 - 1)
bits_on_probabilistic r e =
    let cut : ℕ = min (total_width r.independent_verifiers) (2 ^ 32 - 1) in
    evidence_bits-total_width r ∙ ap (λ (a : Axis). on_probabilistic a cut) e

has_bits_iff :
    (r : EvidenceRecord)
    → r.axis ≡ probabilistic
    → ((evidence_bits r == 0) ≡ false) ↔ (0 < total_width r.independent_verifiers)
has_bits_iff r e =
    (λ q. ground (arith, bits_on_probabilistic r e), λ q. ground (arith, bits_on_probabilistic r e))

bits_iff :
    (r : EvidenceRecord)
    → r.axis ≡ probabilistic
    → ((if evidence_bits r == 0 then err no_independent_verifier else ok r) ≡ ok r)
      ↔ (0 < total_width r.independent_verifiers)
bits_iff r e =
    let refused = refused_iff (evidence_bits r == 0) r no_independent_verifier in
    (λ q. (has_bits_iff r e).0 (refused.0 q), λ q. refused.1 ((has_bits_iff r e).1 q))

class_guard_iff :
    (a : Axis) (c : EvidenceClass) (r : EvidenceRecord)
    → r.axis ≡ a
    → (class_guard a c r ≡ ok r) ↔ Basis a c r
unfolding class_guard
class_guard_iff probabilistic exact_erasure r e =
    let kept = kept_iff (is_some r.target_trust) r untrusted_erasure_target in
    (λ q. (is_some_iff r.target_trust).0 (kept.0 q), λ h. kept.1 ((is_some_iff r.target_trust).1 h))
class_guard_iff probabilistic _ r e = bits_iff r e
class_guard_iff logical _ r e = (λ q. tt, λ h. refl)
class_guard_iff suggestion _ r e = (λ q. tt, λ h. refl)

-- `finish` accepts a record exactly when each verifier is independent of every target that the
-- candidate was solved against, and the record's class has its basis: a trusted target for an
-- exact erasure, a positive sum of widths for the other probabilistic classes.
pub finish_iff :
    (r : EvidenceRecord)
    → (finish r ≡ ok r)
      ↔ (All (IsIndependent r.solved_against) r.independent_verifiers × Basis r.axis r.class r)
unfolding finish
finish_iff r =
    let first = first_tautology_iff r.solved_against r.independent_verifiers in
    let basis = class_guard_iff r.axis r.class r refl in
    elim (Option-cases (first_tautology r.solved_against r.independent_verifiers)) [
      | inl clean ↦ rw (clean, after_tautology) (λ q. (first.0 clean, basis.0 q), λ h. basis.1 h.1)
      | inr (kind, found) ↦ rw (found, after_tautology) (λ q. cc, λ h. cc (first.1 h.0))
    ]

class_guard-emits :
    (a : Axis) (c : EvidenceClass) (r s : EvidenceRecord)
    → class_guard a c r ≡ ok s
    → (s ≡ r) × (emits a c r ≡ true)
unfolding class_guard emits
class_guard-emits probabilistic exact_erasure r s e = ground arith
class_guard-emits _ c r s e = ground arith

-- `finish` returns the record as it was, and a record that it returns can be emitted.
pub finish-can_emit : (r s : EvidenceRecord) → finish r ≡ ok s → (s ≡ r) × (can_emit r ≡ true)
unfolding finish can_emit
finish-can_emit r s e =
    elim (Option-cases (first_tautology r.solved_against r.independent_verifiers)) [
      | inl clean ↦ class_guard-emits r.axis r.class r s (rw (clean, after_tautology) at e)
      | inr (kind, found) ↦ cc (rw (found, after_tautology) at e)
    ]

raises-emits :
    (a : Axis) (c : EvidenceClass) (r : EvidenceRecord) → raises a c r ≡ true → emits a c r ≡ true
unfolding raises emits
raises-emits probabilistic exact_erasure r e = ground arith
raises-emits _ c r e = ground arith

-- A record that raises Health can be emitted.
pub raises_health-can_emit : (r : EvidenceRecord) → raises_health r ≡ true → can_emit r ≡ true
unfolding raises_health can_emit
raises_health-can_emit r e = raises-emits r.axis r.class r e

-- What raises Health: a trusted erasure target; 32 bits at least; or both gates of a unique
-- structure.
abbrev pub RaisingBasis : Axis → EvidenceClass → EvidenceRecord → Type 0
RaisingBasis probabilistic exact_erasure r = r.target_trust ≢ none
RaisingBasis probabilistic _ r = 32 ≤ total_width r.independent_verifiers
RaisingBasis logical structural_unique r =
    (r.unique_gate_passed ≡ true) × (r.clean_differential ≡ true)
RaisingBasis _ _ r = ⊥

is_empty-false : (vs : List Verifier) → 0 < total_width vs → is_empty vs ≡ false
unfolding is_empty
is_empty-false [] h = absurd (omega arith)
is_empty-false (v ∷ vs) h = refl

enough_bits_iff :
    (r : EvidenceRecord)
    → r.axis ≡ probabilistic
    → ((leb health_min_bits (evidence_bits r) && not (is_empty r.independent_verifiers)) ≡ true)
      ↔ (32 ≤ total_width r.independent_verifiers)
enough_bits_iff r e = (
  λ q. ground (arith, bits_on_probabilistic r e),
  λ q. ground (arith, bits_on_probabilistic r e, is_empty-false r.independent_verifiers),
)

raises_iff :
    (a : Axis) (c : EvidenceClass) (r : EvidenceRecord)
    → r.axis ≡ a
    → (raises a c r ≡ true) ↔ RaisingBasis a c r
unfolding raises
raises_iff probabilistic exact_erasure r e = is_some_iff r.target_trust
raises_iff probabilistic _ r e = enough_bits_iff r e
raises_iff logical structural_unique r e = (λ q. ground arith, λ h. ground arith)
raises_iff _ _ r e = (λ q. cc, λ h. absurd h)

-- A record raises Health exactly when it has the binding basis: a trusted target for an exact
-- erasure, 32 bits in all for another probabilistic class, both gates for a unique structure.
-- No other record raises it.
pub raises_health_iff :
    (r : EvidenceRecord) → (raises_health r ≡ true) ↔ RaisingBasis r.axis r.class r
unfolding raises_health
raises_health_iff r = raises_iff r.axis r.class r refl
