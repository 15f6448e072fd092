-- ===== src/Evidence.antt =====
-- crates/phx_recovery/src/evidence/mod.rs: evidence records, what may be emitted and what may raise
-- Health. A constructor of the source that takes `self` returns the new record; `evidence_bits`
-- saturates at the top of `u32`.
pub mod Guards
mod Tests
use Prim.Native.String.{String}
use text.Mathlib.Text.{◌==◌ as str_eq}
use veraqis_recover.Prelude.{
  ℕ, ◌+◌, ◌-◌, ◌^◌, Bool, true, false, not, ◌&&◌, List, [], ◌∷◌, ◌++◌, Option, none, some, ltb, leb,
  any, if◌then◌else◌, ◌==◌, min,
}
use mathlib.Core.List.{foldl}

abbrev pub health_min_bits : ℕ
health_min_bits = 32

pub data Axis : Type 0 where
  probabilistic logical suggestion : Axis

pub data EvidenceClass : Type 0 where
  exact_erasure algebraic_independent exact_copy : EvidenceClass
  structural_unique structural_heuristic suggested : EvidenceClass

abbrev pub Region : Type 0
Region = ℕ × ℕ

pub record Verifier : Type 0 where
  pub kind : String
  pub width : ℕ
  pub region : Region

pub record SolvedAgainst : Type 0 where
  pub kind : String
  pub region : Region

pub data EvidenceError : Type 0 where
  no_independent_verifier : EvidenceError
  tautological_verifier : String → EvidenceError
  untrusted_erasure_target : EvidenceError

pub record EvidenceRecord : Type 0 where
  pub axis : Axis
  pub class : EvidenceClass
  pub independent_verifiers : List Verifier
  pub solved_against : List SolvedAgainst
  pub logical_constraints_used : List String
  pub target_trust : Option String
  pub unique_gate_passed : Bool
  pub clean_differential : Bool

pub data Finished : Type 0 where
  ok : EvidenceRecord → Finished
  err : EvidenceError → Finished

-- The constructors of records, as the source's associated functions.
unfoldable pub base : Axis → EvidenceClass → EvidenceRecord
base axis class = record {
  axis = axis;
  class = class;
  independent_verifiers = [];
  solved_against = [];
  logical_constraints_used = [];
  target_trust = none;
  unique_gate_passed = false;
  clean_differential = false;
}

unfoldable pub new_exact_erasure : String → EvidenceRecord
unfolding base
new_exact_erasure trust = record (base probabilistic exact_erasure) { target_trust = some trust }

unfoldable pub new_algebraic_independent : EvidenceRecord
unfolding base
new_algebraic_independent = base probabilistic algebraic_independent

unfoldable pub new_exact_copy : EvidenceRecord
unfolding base
new_exact_copy = base probabilistic exact_copy

unfoldable pub new_structural_unique : Bool → Bool → EvidenceRecord
unfolding base
new_structural_unique gate clean = record (base logical structural_unique) {
  unique_gate_passed = gate;
  clean_differential = clean;
}

unfoldable pub new_structural_heuristic : EvidenceRecord
unfolding base
new_structural_heuristic = base logical structural_heuristic

unfoldable pub new_suggested : EvidenceRecord
unfolding base
new_suggested = base suggestion suggested

-- `EvidenceRecord::solved_against`, `verified_by` and `with_constraint`.
unfoldable pub add_solved_against : EvidenceRecord → String → Region → EvidenceRecord
add_solved_against r kind region = record r {
  solved_against = r.solved_against ++ record { kind = kind; region = region } ∷ [];
}

unfoldable pub verified_by : EvidenceRecord → String → ℕ → Region → EvidenceRecord
verified_by r kind width region = record r {
  independent_verifiers =
      r.independent_verifiers ++ record { kind = kind; width = width; region = region } ∷ [];
}

unfoldable pub with_constraint : EvidenceRecord → String → EvidenceRecord
with_constraint r c = record r { logical_constraints_used = r.logical_constraints_used ++ c ∷ [] }

unfoldable pub saturating_add : ℕ → ℕ → ℕ
saturating_add a b = min (a + b) (2 ^ 32 - 1)

unfoldable pub sum_widths : ℕ → List Verifier → ℕ
sum_widths acc [] = acc
sum_widths acc (v ∷ vs) = sum_widths (saturating_add acc v.width) vs

bits_on : Axis → List Verifier → ℕ
bits_on probabilistic vs = sum_widths 0 vs
bits_on logical vs = 0
bits_on suggestion vs = 0

unfoldable pub evidence_bits : EvidenceRecord → ℕ
unfolding bits_on sum_widths saturating_add
evidence_bits r = bits_on r.axis r.independent_verifiers

unfoldable pub overlaps : Region → Region → Bool
overlaps a b = ltb a.0 b.1 && ltb b.0 a.1

-- Whether some target that the candidate was solved against coincides with the verifier.
unfoldable pub coincides : List SolvedAgainst → Verifier → Bool
unfolding overlaps
coincides targets v = any (λ t. str_eq t.kind v.kind && overlaps t.region v.region) targets

-- The loop over the verifiers in `finish`: the kind of the first tautological one.
unfoldable pub first_tautology : List SolvedAgainst → List Verifier → Option String
first_tautology targets [] = none
first_tautology targets (v ∷ vs) =
    if coincides targets v then some v.kind else first_tautology targets vs

is_some : Option String → Bool
is_some none = false
is_some (some _) = true

-- The `match` on axis and class at the end of `finish`.
class_guard : Axis → EvidenceClass → EvidenceRecord → Finished
class_guard probabilistic exact_erasure r =
    if is_some r.target_trust then ok r else err untrusted_erasure_target
class_guard probabilistic _ r = if evidence_bits r == 0 then err no_independent_verifier else ok r
class_guard _ _ r = ok r

after_tautology : Option String → EvidenceRecord → Finished
after_tautology (some kind) r = err (tautological_verifier kind)
after_tautology none r = class_guard r.axis r.class r

unfoldable pub finish : EvidenceRecord → Finished
unfolding first_tautology after_tautology class_guard is_some
finish r = after_tautology (first_tautology r.solved_against r.independent_verifiers) r

emits : Axis → EvidenceClass → EvidenceRecord → Bool
emits probabilistic exact_erasure r = is_some r.target_trust
emits probabilistic _ r = ltb 0 (evidence_bits r)
emits _ _ r = true

unfoldable pub can_emit : EvidenceRecord → Bool
unfolding emits is_some
can_emit r = emits r.axis r.class r

is_empty : List Verifier → Bool
is_empty [] = true
is_empty (v ∷ vs) = false

raises : Axis → EvidenceClass → EvidenceRecord → Bool
raises probabilistic exact_erasure r = is_some r.target_trust
raises probabilistic _ r =
    leb health_min_bits (evidence_bits r) && not (is_empty r.independent_verifiers)
raises logical structural_unique r = r.unique_gate_passed && r.clean_differential
raises _ _ r = false

unfoldable pub raises_health : EvidenceRecord → Bool
unfolding raises is_some is_empty
raises_health r = raises r.axis r.class r
