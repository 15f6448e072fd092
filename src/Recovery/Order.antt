-- ===== src/Recovery/Order.antt =====
-- Properties of the order in which `select` puts the strategies,
-- crates/phx_recovery/src/engine.rs.
use veraqis_recover.Prelude.{
  ℕ, ◌≤◌, ◌≡◌, ◌≢◌, refl, ◌∙◌, none, List, [], ◌∷◌, leb, leb→le, ◌==◌, All, arith, Bool-cases, inl,
  inr,
}
use mathlib.Core.List.{Perm}
use mathlib.Core.List.Perm
use veraqis_recover.Prelude.Results.{ok}
use veraqis_recover.Recovery.Model.{AnalysisResult, RecoveryStrategy, Corruption, filter}
use veraqis_recover.Recovery.Select.{
  insert, sort_by_priority, applicable, some_or_abstain, select_damaged, select_automatic, select,
}

-- No strategy has a higher priority than one before it.
unfoldable pub IsDescending : List RecoveryStrategy → Type 0
IsDescending [] = Unit
IsDescending (s ∷ ss) = All (λ t. t.priority ≤ s.priority) ss × IsDescending ss

-- The strategies of priority `p`.
abbrev pub with_priority : ℕ → List RecoveryStrategy → List RecoveryStrategy
with_priority p ss = filter (λ s. s.priority == p) ss

insert-All :
    (n : ℕ) (s : RecoveryStrategy) (ss : List RecoveryStrategy)
    → s.priority ≤ n
    → All (λ t. t.priority ≤ n) ss
    → All (λ t. t.priority ≤ n) (insert s ss)
unfolding insert
insert-All n s [] h a = (h, tt)
insert-All n s (t ∷ ts) h a = elim (Bool-cases (leb t.priority s.priority)) [
  | inl below ↦ simp below (h, a)
  | inr above ↦ simp above (a.0, insert-All n s ts h a.1)
]

All-le :
    (m n : ℕ) (ss : List RecoveryStrategy)
    → m ≤ n
    → All (λ t. t.priority ≤ m) ss
    → All (λ t. t.priority ≤ n) ss
All-le m n [] h a = tt
All-le m n (t ∷ ts) h a = (omega (arith, h, a.0), All-le m n ts h a.1)

insert-IsDescending :
    (s : RecoveryStrategy) (ss : List RecoveryStrategy)
    → IsDescending ss
    → IsDescending (insert s ss)
unfolding insert IsDescending
insert-IsDescending s [] d = (tt, tt)
insert-IsDescending s (t ∷ ts) d = elim (Bool-cases (leb t.priority s.priority)) [
  | inl below ↦
      let le = leb→le t.priority s.priority below in
      simp below (((le, All-le t.priority s.priority ts le d.0), d))
  | inr above ↦
      simp above (insert-All t.priority s ts (ground arith) d.0, insert-IsDescending s ts d.1)
]

insert-Perm : (s : RecoveryStrategy) (ss : List RecoveryStrategy) → Perm (insert s ss) (s ∷ ss)
unfolding insert
insert-Perm s [] = Perm.rfl
insert-Perm s (t ∷ ts) = elim (Bool-cases (leb t.priority s.priority)) [
  | inl below ↦ simp below Perm.rfl
  | inr above ↦ simp above (Perm.trans (Perm.cons t (insert-Perm s ts)) (Perm.swap s t ts))
]

insert-stable :
    (p : ℕ) (s : RecoveryStrategy) (ss : List RecoveryStrategy)
    → with_priority p (insert s ss) ≡ with_priority p (s ∷ ss)
unfolding insert filter
insert-stable p s [] = refl
insert-stable p s (t ∷ ts) = ground (arith, insert-stable p s ts)

sort_by_priority-IsDescending : (ss : List RecoveryStrategy) → IsDescending (sort_by_priority ss)
unfolding sort_by_priority IsDescending
sort_by_priority-IsDescending [] = tt
sort_by_priority-IsDescending (s ∷ ss) =
    insert-IsDescending s (sort_by_priority ss) (sort_by_priority-IsDescending ss)

sort_by_priority-Perm : (ss : List RecoveryStrategy) → Perm (sort_by_priority ss) ss
unfolding sort_by_priority
sort_by_priority-Perm [] = Perm.rfl
sort_by_priority-Perm (s ∷ ss) =
    Perm.trans (insert-Perm s (sort_by_priority ss)) (Perm.cons s (sort_by_priority-Perm ss))

with_priority-cons :
    (p : ℕ) (s : RecoveryStrategy) (xs ys : List RecoveryStrategy)
    → with_priority p xs ≡ with_priority p ys
    → with_priority p (s ∷ xs) ≡ with_priority p (s ∷ ys)
unfolding filter
with_priority-cons p s xs ys e = rw e refl

sort_by_priority-stable :
    (p : ℕ) (ss : List RecoveryStrategy)
    → with_priority p (sort_by_priority ss) ≡ with_priority p ss
unfolding sort_by_priority
sort_by_priority-stable p [] = refl
sort_by_priority-stable p (s ∷ ss) =
    insert-stable p s (sort_by_priority ss)
    ∙ with_priority-cons p s (sort_by_priority ss) ss (sort_by_priority-stable p ss)

select_damaged-ok :
    (corruptions : List Corruption) (able selected : List RecoveryStrategy)
    → select_damaged corruptions able ≡ ok selected
    → (corruptions ≢ []) × (selected ≢ []) × (selected ≡ able)
unfolding select_damaged some_or_abstain
select_damaged-ok [] able selected e = cc
select_damaged-ok (c ∷ cs) [] selected e = cc
select_damaged-ok (c ∷ cs) (s ∷ ss) selected e = (λ q. cc, λ q. cc, cc)

select-applicable :
    (all_strategies : List RecoveryStrategy) (analysis : AnalysisResult)
    (selected : List RecoveryStrategy)
    → select all_strategies analysis none ≡ ok selected
    → (analysis.corruptions ≢ [])
      × (selected ≢ [])
      × (selected ≡ applicable all_strategies analysis)
unfolding select select_automatic
select-applicable all_strategies analysis selected e =
    select_damaged-ok analysis.corruptions (applicable all_strategies analysis) selected e

-- Without a forced strategy, a selection that succeeds is of an analysis with corruptions; it is
-- not empty and consists of the strategies that can apply, each as often as it is registered, by
-- descending priority, and those of a priority `p` in the order in which they are registered.
pub select_ordered :
    (all_strategies : List RecoveryStrategy) (analysis : AnalysisResult)
    (selected : List RecoveryStrategy) (p : ℕ)
    → select all_strategies analysis none ≡ ok selected
    → (analysis.corruptions ≢ [])
      × (selected ≢ [])
      × Perm selected (filter (λ s. s.can_apply analysis) all_strategies)
      × IsDescending selected
      × (with_priority p selected
          ≡ with_priority p (filter (λ s. s.can_apply analysis) all_strategies))
unfolding applicable
select_ordered all_strategies analysis selected p e =
    let (damaged, some_, same) = select-applicable all_strategies analysis selected e in
    let able = filter (λ s. s.can_apply analysis) all_strategies in
    (
      damaged,
      some_,
      rw same (sort_by_priority-Perm able),
      rw same (sort_by_priority-IsDescending able),
      rw same (sort_by_priority-stable p able),
    )
