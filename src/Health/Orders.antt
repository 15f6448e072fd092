-- ===== src/Health/Orders.antt =====
-- The order of corruptions and the score of crates/phx_analyze_engine/src/health/scorer.rs.
use veraqis_recover.Prelude.{
  ℕ, ◌≡◌, refl, sym, ap, ◌∙◌, Bool, true, false, List, [], ◌∷◌, if◌then◌else◌, arith,
}
use mathlib.Core.List.{Perm, foldr}
use mathlib.Core.List.Perm
use veraqis_recover.Recovery.Model.{Corruption}
use veraqis_recover.Health.{
  Counters, sub_i32, penalty_of, deduct, deduct_loop, full_counters, health_of, score,
}
use veraqis_recover.Health.Table.{RulePenalty}

Counters-eq :
    {a b c a' b' c' : ℕ}
    → a ≡ a'
    → b ≡ b'
    → c ≡ c'
    → ◌≡◌ {A = Counters}
        (record { structural = a; health = b; metadata = c })
        (record { structural = a'; health = b'; metadata = c' })
Counters-eq e f g = λ i. record { structural = e i; health = f i; metadata = g i }

-- Two deductions from one counter.
sub_i32_commute : (c m n : ℕ) → sub_i32 (sub_i32 c m) n ≡ sub_i32 (sub_i32 c n) m
unfolding sub_i32
sub_i32_commute c m n = omega arith

-- One deduction, for a counter that a rule is for or not.
swap_counter :
    (p q : Bool) (m n c : ℕ)
    → (if p then sub_i32 (if q then sub_i32 c n else c) m else (if q then sub_i32 c n else c))
      ≡ (if q then sub_i32 (if p then sub_i32 c m else c) n else (if p then sub_i32 c m else c))
swap_counter true true m n c = sub_i32_commute c n m
swap_counter true false m n c = refl
swap_counter false q m n c = refl

deduct-deduct : (p q : RulePenalty) (c : Counters) → deduct p (deduct q c) ≡ deduct q (deduct p c)
unfolding deduct
deduct-deduct p q c =
    Counters-eq (swap_counter p.structural q.structural p.points q.points c.structural)
      (swap_counter p.data_health q.data_health p.points q.points c.health)
      (swap_counter p.metadata q.metadata p.points q.points c.metadata)

deduct_corruption : Corruption → Counters → Counters
deduct_corruption c counters = deduct (penalty_of c) counters

deduct_loop-deduct :
    (cs : List Corruption) (p : RulePenalty) (counters : Counters)
    → deduct_loop (deduct p counters) cs ≡ deduct p (deduct_loop counters cs)
unfolding deduct_loop
deduct_loop-deduct [] p counters = refl
deduct_loop-deduct (c ∷ cs) p counters =
    ap (λ (l : Counters). deduct_loop l cs) (deduct-deduct (penalty_of c) p counters)
    ∙ deduct_loop-deduct cs p (deduct (penalty_of c) counters)

-- The loop as a fold from the right.
deduct_loop-foldr :
    (cs : List Corruption) (counters : Counters)
    → deduct_loop counters cs ≡ foldr deduct_corruption counters cs
unfolding deduct_loop deduct_corruption
deduct_loop-foldr [] counters = refl
deduct_loop-foldr (c ∷ cs) counters =
    deduct_loop-deduct cs (penalty_of c) counters
    ∙ ap (deduct (penalty_of c)) (deduct_loop-foldr cs counters)

Counters-set : IsSet Counters
Counters-set = hlevel

-- The score does not depend on the order in which the corruptions were found.
pub score_unordered : (cs ds : List Corruption) → Perm cs ds → score cs ≡ score ds
unfolding score
score_unordered cs ds h = ap health_of (
    deduct_loop-foldr cs full_counters
    ∙ (Perm.foldr-eq Counters-set deduct_corruption commute h full_counters
        ∙ sym (deduct_loop-foldr ds full_counters)))
  where
    commute :
        (c d : Corruption) (l : Counters)
        → deduct_corruption c (deduct_corruption d l) ≡ deduct_corruption d (deduct_corruption c l)
    commute c d l = unfold deduct_corruption in deduct-deduct (penalty_of c) (penalty_of d) l
