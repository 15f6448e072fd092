-- ===== src/Health/Tests.antt =====
-- Scores of a listed and of an unlisted corruption.
use veraqis_recover.Prelude.{◌≡◌, refl, none, [], ◌∷◌, ◌++◌, arith}
use veraqis_recover.Recovery.Model.{
  bit_flip, structural_corruption, major, catastrophic, Corruption,
}
use veraqis_recover.Health.{
  weighted, from_subscores, penalty_for, penalty_of, default_points, default_penalty, route,
  sub_i32, clamp_i32, find_rule, or_default, deduct, deduct_loop, full_counters, health_of, score,
}
use veraqis_recover.Health.Table.{rule_penalties}
use veraqis_recover.Health.Scores.{IsScore, score-IsScore, IsWorse, score-IsWorse}
use veraqis_recover.Health.Orders.{score_unordered}
use mathlib.Core.List.Perm

abbrev flip : Corruption
flip = record {
  rule_id = "TEST_UNLISTED_RULE";
  category = bit_flip;
  severity = major;
  byte_range = none;
}

abbrev directory : Corruption
directory = record {
  rule_id = "ZIP_EOCD_001";
  category = structural_corruption;
  severity = catastrophic;
  byte_range = none;
}

two_flips : (score (flip ∷ flip ∷ [])).data_health ≡ 50
unfolding score deduct_loop deduct penalty_of penalty_for or_default find_rule rule_penalties
    default_penalty default_points route health_of from_subscores weighted full_counters sub_i32
    clamp_i32
two_flips = refl

listed : (score (directory ∷ [])).overall ≡ 15
unfolding score deduct_loop deduct penalty_of penalty_for or_default find_rule rule_penalties
    default_penalty default_points route health_of from_subscores weighted full_counters sub_i32
    clamp_i32
listed = refl

score-IsScore_example : IsScore (score (flip ∷ directory ∷ []))
score-IsScore_example = score-IsScore (flip ∷ directory ∷ [])

score-IsWorse_example : IsWorse (score ((flip ∷ []) ++ directory ∷ [])) (score (flip ∷ []))
score-IsWorse_example = score-IsWorse (flip ∷ []) (directory ∷ []) (omega arith)

score_unordered_example : score (flip ∷ directory ∷ []) ≡ score (directory ∷ flip ∷ [])
score_unordered_example =
    score_unordered (flip ∷ directory ∷ []) (directory ∷ flip ∷ []) (Perm.swap directory flip [])
