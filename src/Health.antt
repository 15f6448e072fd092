-- ===== src/Health.antt =====
-- crates/phx_analyze_engine/src/health and src/model/health.rs: the scores of an analysis.
pub mod Table
pub mod Scores
pub mod Orders
mod Tests
use veraqis_recover.Prelude.{
  ℕ, ◌+◌, ◌-◌, ◌*◌, ◌/◌, ◌%◌, ◌^◌, min, Bool, true, false, Option, none, some, List, [], ◌∷◌,
  if◌then◌else◌, leb, ◌==◌,
}
use veraqis_recover.Prelude.Texts.{String, text_eq}
use veraqis_recover.Recovery.Model.{
  CorruptionCategory, missing_data, bit_flip, block_reorder, truncation, padding_mismatch,
  checksum_mismatch, structural_corruption, security_threat, Severity, benign, minor, major,
  catastrophic, Corruption,
}
use veraqis_recover.Health.Table.{
  RulePenalty, penalty_s, penalty_d, penalty_sd, penalty_all, default_benign, default_minor,
  default_major, default_catastrophic, rule_penalties,
}

pub record HealthScore : Type 0 where
  pub overall : ℕ
  pub structural_health : ℕ
  pub data_health : ℕ
  pub metadata_health : ℕ

unfoldable pub perfect : HealthScore
perfect = record {
  overall = 100;
  structural_health = 100;
  data_health = 100;
  metadata_health = 100;
}

-- `(s * 0.4 + d * 0.4 + m * 0.2).round()`: the sum is a whole number of fifths, none of which is near
-- a half, so the rounding of the exact sum is that of the floating-point one; it is within 0..=100.
unfoldable pub weighted : ℕ → ℕ → ℕ → ℕ
weighted structural health metadata = (4 * structural + 4 * health + 2 * metadata + 5) / 10

unfoldable pub from_subscores : ℕ → ℕ → ℕ → HealthScore
from_subscores structural health metadata = record {
  overall = weighted (min structural 100) (min health 100) (min metadata 100);
  structural_health = min structural 100;
  data_health = min health 100;
  metadata_health = min metadata 100;
}

unfoldable pub interpretation : HealthScore → String
interpretation score =
    if score.overall == 100
    then "Perfect"
    else if leb 80 score.overall
    then "Minor issues, fully usable"
    else if leb 50 score.overall
    then "Significant damage, partial loss"
    else if leb 20 score.overall
    then "Severe damage"
    else "Catastrophic"

unfoldable pub default_points : Severity → ℕ
default_points benign = default_benign
default_points minor = default_minor
default_points major = default_major
default_points catastrophic = default_catastrophic

unfoldable pub route : CorruptionCategory → ℕ → RulePenalty
route structural_corruption points = penalty_s points
route block_reorder points = penalty_s points
route padding_mismatch points = penalty_s points
route bit_flip points = penalty_d points
route checksum_mismatch points = penalty_d points
route missing_data points = penalty_d points
route truncation points = penalty_sd points
route security_threat points = penalty_all points

-- The penalty of a rule that the table does not list.
unfoldable pub default_penalty : Severity → CorruptionCategory → RulePenalty
default_penalty catastrophic category = penalty_all (default_points catastrophic)
default_penalty benign category = route category (default_points benign)
default_penalty minor category = route category (default_points minor)
default_penalty major category = route category (default_points major)

-- `RULE_PENALTIES.iter().find(|(id, _)| *id == rule_id)`.
unfoldable pub find_rule : String → List (String × RulePenalty) → Option RulePenalty
find_rule rule_id [] = none
find_rule rule_id (row ∷ rows) =
    let rest = find_rule rule_id rows in if text_eq row.0 rule_id then some row.1 else rest

unfoldable pub or_default : RulePenalty → Option RulePenalty → RulePenalty
or_default penalty none = penalty
or_default penalty (some listed) = listed

unfoldable pub penalty_for : String → Severity → CorruptionCategory → RulePenalty
penalty_for rule_id severity category =
    or_default (default_penalty severity category) (find_rule rule_id rule_penalties)

-- The three counters of `score`, `i32` in two's complement.
pub record Counters : Type 0 where
  pub structural : ℕ
  pub health : ℕ
  pub metadata : ℕ

-- `counter -= points`, which wraps around in a release build.
unfoldable pub sub_i32 : ℕ → ℕ → ℕ
sub_i32 counter points = (counter + (2 ^ 32 - points % 2 ^ 32)) % 2 ^ 32

-- `counter.clamp(0, 100)`.
unfoldable pub clamp_i32 : ℕ → ℕ
clamp_i32 counter = if leb (2 ^ 31) counter then 0 else min counter 100

unfoldable pub penalty_of : Corruption → RulePenalty
penalty_of c = penalty_for c.rule_id c.severity c.category

-- The body of the `for` loop.
unfoldable pub deduct : RulePenalty → Counters → Counters
deduct p c = record {
  structural = if p.structural then sub_i32 c.structural p.points else c.structural;
  health = if p.data_health then sub_i32 c.health p.points else c.health;
  metadata = if p.metadata then sub_i32 c.metadata p.points else c.metadata;
}

unfoldable pub deduct_loop : Counters → List Corruption → Counters
deduct_loop counters [] = counters
deduct_loop counters (c ∷ corruptions) = deduct_loop (deduct (penalty_of c) counters) corruptions

unfoldable pub full_counters : Counters
full_counters = record { structural = 100; health = 100; metadata = 100 }

unfoldable pub health_of : Counters → HealthScore
health_of c = from_subscores (clamp_i32 c.structural) (clamp_i32 c.health) (clamp_i32 c.metadata)

unfoldable pub score : List Corruption → HealthScore
score corruptions = health_of (deduct_loop full_counters corruptions)
