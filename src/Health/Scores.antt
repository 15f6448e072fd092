-- ===== src/Health/Scores.antt =====
-- Bounds of the scores of crates/phx_analyze_engine/src/health/scorer.rs.
use veraqis_recover.Prelude.{
  ℕ, suc, ◌+◌, ◌*◌, ◌%◌, ◌^◌, ◌≤◌, ◌<◌, ◌≡◌, refl, sym, min, max, Bool, true, false, Option, none,
  some, if◌then◌else◌, leb, all, length, List, [], ◌∷◌, ◌++◌, arith,
}
use veraqis_recover.Prelude.Texts.{String}
use veraqis_recover.Recovery.Model.{Corruption, Severity, CorruptionCategory}
use veraqis_recover.Health.{
  HealthScore, weighted, from_subscores, sub_i32, clamp_i32, Counters, default_points, route,
  default_penalty, find_rule, or_default, penalty_for, penalty_of, deduct, deduct_loop,
  full_counters, health_of, score,
}
use veraqis_recover.Health.Table.{RulePenalty, rule_penalties}

-- A score: percentages, the overall one between the least and the greatest of the others.
pub record IsScore (s : HealthScore) : Type 0 where
  pub structural : s.structural_health ≤ 100
  pub health : s.data_health ≤ 100
  pub metadata : s.metadata_health ≤ 100
  pub above : min s.structural_health (min s.data_health s.metadata_health) ≤ s.overall
  pub below : s.overall ≤ max s.structural_health (max s.data_health s.metadata_health)

-- One score is at most another, in all parts.
pub record IsWorse (s t : HealthScore) : Type 0 where
  pub overall : s.overall ≤ t.overall
  pub structural : s.structural_health ≤ t.structural_health
  pub health : s.data_health ≤ t.data_health
  pub metadata : s.metadata_health ≤ t.metadata_health

-- The score of any corruptions has percentages for its parts, and an overall percentage between the
-- least and the greatest of them.
pub score-IsScore : (corruptions : List Corruption) → IsScore (score corruptions)
unfolding score health_of from_subscores weighted
score-IsScore corruptions = record {
  structural = omega arith;
  health = omega arith;
  metadata = omega arith;
  above = omega arith;
  below = omega arith;
}

-- A counter with its sign turned, so that the order is that of the numbers.
abbrev signed : ℕ → ℕ
signed counter = (counter + 2 ^ 31) % 2 ^ 32

sub_i32-signed :
    (counter points : ℕ)
    → points ≤ 85
    → points ≤ signed counter
    → signed (sub_i32 counter points) + points ≡ signed counter
unfolding sub_i32
sub_i32-signed counter points small room = omega arith

clamp_i32_mono :
    (a b : ℕ) → a < 2 ^ 32 → b < 2 ^ 32 → signed a ≤ signed b → clamp_i32 a ≤ clamp_i32 b
unfolding clamp_i32
clamp_i32_mono a b l m h = ground arith

sub_i32-lt : (counter points : ℕ) → sub_i32 counter points < 2 ^ 32
unfolding sub_i32
sub_i32-lt counter points = omega arith

-- A counter that `n` more deductions of up to 85 points do not take below the least `i32`.
record HasRoom (n counter : ℕ) : Type 0 where
  word : counter < 2 ^ 32
  room : n * 85 ≤ signed counter

-- A deduction uses up room and raises nothing.
deduct_one :
    (n counter points : ℕ) (b : Bool)
    → points ≤ 85
    → HasRoom (suc n) counter
    → HasRoom n (if b then sub_i32 counter points else counter)
      × (signed (if b then sub_i32 counter points else counter) ≤ signed counter)
deduct_one n counter points true small h =
    let less = sub_i32-signed counter points small (omega (arith, h.room, small)) in
    (
      record { word = sub_i32-lt counter points; room = omega (arith, h.room, less, small) },
      omega (arith, less),
    )
deduct_one n counter points false small h =
    (record { word = h.word; room = omega (arith, h.room) }, omega arith)

record HasRooms (n : ℕ) (c : Counters) : Type 0 where
  structural : HasRoom n c.structural
  health : HasRoom n c.health
  metadata : HasRoom n c.metadata

-- The counters of the second are no lower.
record IsLower (a b : Counters) : Type 0 where
  structural : signed a.structural ≤ signed b.structural
  health : signed a.health ≤ signed b.health
  metadata : signed a.metadata ≤ signed b.metadata

find_rule-points :
    (rule_id : String) (rows : List (String × RulePenalty)) (p : RulePenalty)
    → all (λ (row : String × RulePenalty). leb row.1.points 85) rows ≡ true
    → find_rule rule_id rows ≡ some p
    → p.points ≤ 85
unfolding find_rule
find_rule-points rule_id [] p h e = cc
find_rule-points rule_id (row ∷ rows) p h e = ground (arith, find_rule-points rule_id rows p)

default_penalty-points :
    (severity : Severity) (category : CorruptionCategory)
    → (default_penalty severity category).points ≤ 85
unfolding default_penalty default_points route
default_penalty-points severity category = ground arith

penalty_of-points : (c : Corruption) → (penalty_of c).points ≤ 85
unfolding penalty_of penalty_for
penalty_of-points c = listed (find_rule c.rule_id rule_penalties) refl
  where
    small : all (λ (row : String × RulePenalty). leb row.1.points 85) rule_penalties ≡ true
    small = unfold rule_penalties in refl

    listed :
        (o : Option RulePenalty)
        → find_rule c.rule_id rule_penalties ≡ o
        → (or_default (default_penalty c.severity c.category) o).points ≤ 85
    listed none e = unfold or_default in default_penalty-points c.severity c.category
    listed (some p) e = unfold or_default in find_rule-points c.rule_id rule_penalties p small e

deduct_room :
    (n : ℕ) (p : RulePenalty) (c : Counters)
    → p.points ≤ 85
    → HasRooms (suc n) c
    → HasRooms n (deduct p c) × IsLower (deduct p c) c
unfolding deduct
deduct_room n p c small h =
    let s = deduct_one n c.structural p.points p.structural small h.structural in
    let d = deduct_one n c.health p.points p.data_health small h.health in
    let m = deduct_one n c.metadata p.points p.metadata small h.metadata in
    (
      record { structural = s.0; health = d.0; metadata = m.0 },
      record { structural = s.1; health = d.1; metadata = m.1 },
    )

-- The loop over corruptions that the counters have room for raises nothing.
deduct_loop_room :
    (cs : List Corruption) (n : ℕ) (c : Counters)
    → HasRooms (length cs + n) c
    → HasRooms n (deduct_loop c cs) × IsLower (deduct_loop c cs) c
unfolding deduct_loop
deduct_loop_room [] n c h = (
  rw zero_add at h,
  record { structural = omega arith; health = omega arith; metadata = omega arith },
)
  where
    zero_add : 0 + n ≡ n
    zero_add = omega arith
deduct_loop_room (d ∷ cs) n c h =
    let (room, low) =
      deduct_room (length cs + n) (penalty_of d) c (penalty_of-points d) (rw one_more at h) in
    let (rest, lower) = deduct_loop_room cs n (deduct (penalty_of d) c) room in
    (
      rest,
      record {
        structural = omega (arith, low.structural, lower.structural);
        health = omega (arith, low.health, lower.health);
        metadata = omega (arith, low.metadata, lower.metadata);
      },
    )
  where
    one_more : suc (length cs) + n ≡ suc (length cs + n)
    one_more = omega arith

deduct_loop-append :
    (cs ds : List Corruption) (c : Counters)
    → deduct_loop c (cs ++ ds) ≡ deduct_loop (deduct_loop c cs) ds
unfolding deduct_loop
deduct_loop-append [] ds c = refl
deduct_loop-append (d ∷ cs) ds c = deduct_loop-append cs ds (deduct (penalty_of d) c)

health_of-IsWorse :
    (a b : Counters)
    → HasRooms 0 a
    → HasRooms 0 b
    → IsLower a b
    → IsWorse (health_of a) (health_of b)
unfolding health_of from_subscores weighted
health_of-IsWorse a b g h l =
    let s =
      clamp_i32_mono a.structural b.structural g.structural.word h.structural.word l.structural in
    let d = clamp_i32_mono a.health b.health g.health.word h.health.word l.health in
    let m = clamp_i32_mono a.metadata b.metadata g.metadata.word h.metadata.word l.metadata in
    record {
      overall = omega (arith, s, d, m);
      structural = omega (arith, s);
      health = omega (arith, d);
      metadata = omega (arith, m);
    }

full_room : (n : ℕ) → n ≤ 25_000_000 → HasRooms n full_counters
unfolding full_counters
full_room n h = record { structural = one; health = one; metadata = one }
  where
    one : HasRoom n 100
    one = record { word = omega arith; room = omega (arith, h) }

fewer : (n counter : ℕ) → HasRoom n counter → HasRoom 0 counter
fewer n counter h = record { word = h.word; room = omega arith }

-- Further corruptions raise no part of a score, if there are 25 million in all at most: so many leave
-- the `i32` counters within their range.
pub score-IsWorse :
    (corruptions more : List Corruption)
    → length corruptions + length more ≤ 25_000_000
    → IsWorse (score (corruptions ++ more)) (score corruptions)
unfolding score
score-IsWorse corruptions more few =
    let start = full_room (length corruptions + length more) few in
    let (room, low) = deduct_loop_room corruptions (length more) full_counters start in
    let before = deduct_loop full_counters corruptions in
    let (last, lower) =
      deduct_loop_room more 0 before (rw (sym (add_zero (length more))) at room) in
    rw (deduct_loop-append corruptions more full_counters) (
      health_of-IsWorse (deduct_loop before more) before last
        (record {
          structural = fewer (length more) before.structural room.structural;
          health = fewer (length more) before.health room.health;
          metadata = fewer (length more) before.metadata room.metadata;
        })
        lower)
  where
    add_zero : (n : ℕ) → n + 0 ≡ n
    add_zero n = omega arith
