-- ===== src/Resync/Tallies.antt =====
-- The tallies of crates/phx_recovery/src/resync/mod.rs and the segments they count.
use veraqis_recover.Prelude.{
  ℕ, suc, ◌+◌, ◌≡◌, refl, ap, List, [], ◌∷◌, ◌++◌, if◌then◌else◌, length, length-append,
  append_assoc, append-nil, ◌∙◌, arith, Bool-cases, inl, inr,
}
use veraqis_recover.Resync.{
  Segment, verified, SalvageResult, new, push, payload_of, verified_payload,
}

unfoldable pub verified_count : List Segment → ℕ
verified_count [] = 0
verified_count (s ∷ ss) = let rest = verified_count ss in if verified s then suc rest else rest

unfoldable pub unverified_total : List Segment → ℕ
unverified_total [] = 0
unverified_total (s ∷ ss) =
    let rest = unverified_total ss in if verified s then rest else length s.bytes + rest

-- The tallies are those of the segments.
pub record IsTallied (result : SalvageResult) : Type 0 where
  pub bytes : result.verified_bytes ≡ length (verified_payload result)
  pub members : result.members_verified ≡ verified_count result.segments
  pub others : result.unverified_bytes ≡ unverified_total result.segments

pub payload_of-append :
    (ss ts : List Segment) → payload_of (ss ++ ts) ≡ payload_of ss ++ payload_of ts
unfolding payload_of
payload_of-append [] ts = refl
payload_of-append (s ∷ ss) ts = elim (Bool-cases (verified s)) [
  | inl good ↦ rw (good, payload_of-append ss ts, append_assoc s.bytes) refl
  | inr bad ↦ rw (bad, payload_of-append ss ts) refl
]

verified_count-append :
    (ss ts : List Segment) → verified_count (ss ++ ts) ≡ verified_count ss + verified_count ts
unfolding verified_count
verified_count-append [] ts = omega arith
verified_count-append (s ∷ ss) ts = ground (arith, verified_count-append ss ts)

unverified_total-append :
    (ss ts : List Segment) → unverified_total (ss ++ ts) ≡ unverified_total ss + unverified_total ts
unfolding unverified_total
unverified_total-append [] ts = omega arith
unverified_total-append (s ∷ ss) ts = ground (arith, unverified_total-append ss ts)

-- What one more segment adds.
length-payload :
    (ss : List Segment) (s : Segment)
    → length (payload_of (ss ++ s ∷ []))
      ≡ length (payload_of ss) + (if verified s then length s.bytes else 0)
unfolding payload_of
length-payload ss s =
    ap length (payload_of-append ss (s ∷ []))
    ∙ (length-append (payload_of ss) (payload_of (s ∷ []))
        ∙ ap (λ (n : ℕ). length (payload_of ss) + n) last)
  where
    last : length (payload_of (s ∷ [])) ≡ (if verified s then length s.bytes else 0)
    last = ground (arith, append-nil s.bytes)

pub new-IsTallied : (format : _) → IsTallied (new format)
unfolding new verified_payload payload_of verified_count unverified_total
new-IsTallied format = record { bytes = refl; members = refl; others = refl }

-- A segment that is recorded is counted once, by its bytes and as a member when it is verified, and
-- by its bytes alone when it is not.
pub push-IsTallied :
    (segment : Segment) (result : SalvageResult)
    → IsTallied result
    → IsTallied (push segment result)
unfolding push verified_payload verified_count unverified_total
push-IsTallied segment result h =
    let payload = length-payload result.segments segment in
    let count = verified_count-append result.segments (segment ∷ []) in
    let others = unverified_total-append result.segments (segment ∷ []) in
    elim (Bool-cases (verified segment)) [
      | inl good ↦ simp good (record {
        bytes = ground (arith, payload, good, h.bytes);
        members = ground (arith, count, good, h.members);
        others = ground (arith, others, good, h.others);
      })
      | inr bad ↦ simp bad (record {
        bytes = ground (arith, payload, bad, h.bytes);
        members = ground (arith, count, bad, h.members);
        others = ground (arith, others, bad, h.others);
      })
    ]
