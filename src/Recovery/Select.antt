-- ===== src/Recovery/Select.antt =====
-- The choice of strategies, and the plan: `RecoveryEngine::select` and `plan` of
-- crates/phx_recovery/src/engine.rs, `strategy_by_name` of strategies/mod.rs.
use veraqis_recover.Prelude.{Option, none, some, List, [], ◌∷◌, ◌++◌, map, if◌then◌else◌, leb}
use veraqis_recover.Prelude.Texts.{String, text_eq}
use veraqis_recover.Prelude.Results.{Result, ok, err, ok_or, ◌>>=◌}
use veraqis_recover.Recovery.Model.{
  AnalysisResult, Corruption, RecoveryError, no_applicable_strategy, strategy_failed,
  RecoveryStrategy, RepairPlan, filter, plan_of,
}

-- `sort_by_key(|s| Reverse(s.priority()))`, which is stable.
unfoldable pub insert : RecoveryStrategy → List RecoveryStrategy → List RecoveryStrategy
insert s [] = s ∷ []
insert s (t ∷ ts) =
    let rest = insert s ts in if leb t.priority s.priority then s ∷ t ∷ ts else t ∷ rest

unfoldable pub sort_by_priority : List RecoveryStrategy → List RecoveryStrategy
sort_by_priority [] = []
sort_by_priority (s ∷ ss) = insert s (sort_by_priority ss)

unfoldable pub strategy_by_name : String → List RecoveryStrategy → Option RecoveryStrategy
strategy_by_name name [] = none
strategy_by_name name (s ∷ ss) =
    let rest = strategy_by_name name ss in if text_eq s.name name then some s else rest

unfoldable pub applicable : List RecoveryStrategy → AnalysisResult → List RecoveryStrategy
applicable all_strategies analysis =
    sort_by_priority (filter (λ s. s.can_apply analysis) all_strategies)

pub concat : {A : Type 0} → List (List A) → List A
concat [] = []
concat (xs ∷ xss) = xs ++ concat xss

unfoldable pub plan : List RecoveryStrategy → AnalysisResult → List RepairPlan
plan all_strategies analysis =
    concat (map (λ s. plan_of s analysis) (applicable all_strategies analysis))

-- `Err(NoApplicableStrategy)` for an empty list.
unfoldable pub some_or_abstain :
    List RecoveryStrategy → Result RecoveryError (List RecoveryStrategy)
some_or_abstain [] = err no_applicable_strategy
some_or_abstain (s ∷ ss) = ok (s ∷ ss)

-- Without corruptions there is nothing to repair.
unfoldable pub select_damaged :
    List Corruption → List RecoveryStrategy → Result RecoveryError (List RecoveryStrategy)
select_damaged [] able = err no_applicable_strategy
select_damaged (_ ∷ _) able = some_or_abstain able

unfoldable pub select_automatic :
    List RecoveryStrategy → AnalysisResult → Result RecoveryError (List RecoveryStrategy)
select_automatic all_strategies analysis =
    select_damaged analysis.corruptions (applicable all_strategies analysis)

unfoldable pub select :
    List RecoveryStrategy
    → AnalysisResult
    → Option String
    → Result RecoveryError (List RecoveryStrategy)
select all_strategies analysis none = select_automatic all_strategies analysis
select all_strategies analysis (some name) = do
  s ← ok_or (strategy_failed name "unknown strategy name") (strategy_by_name name all_strategies)
  ok (s ∷ [])
