-- ===== src/Resync/Rounds.antt =====
-- The rounds of the walk of crates/phx_recovery/src/resync/tar.rs, and what each keeps.
use veraqis_recover.Prelude.{
  ℕ, zero, suc, ◌+◌, ◌*◌, ◌≤◌, ◌≡◌, refl, ap, ◌⊎◌, inl, inr, true, Bytes, leb, leb→le, length,
  slice, arith, Bool-cases,
}
use veraqis_recover.Ustar.{all_zero, is_ustar}
use veraqis_recover.Resync.{is_verified, SalvageResult, push, verified_payload}
use veraqis_recover.Resync.Tallies.{IsTallied, push-IsTallied}
use veraqis_recover.Resync.Members.{Members, Members-append, Members-extend}
use veraqis_recover.Resync.Tar.{
  checksum_ok, size_of, blocks_of, Walk, skip_zeros, skip_garbage, skip_mismatch, count_member,
  member_at, keep_member, abstain, data_fits, take_member, on_block, tar_round, salvage_loop,
}

-- Every member that was met is verified, but for one at most, whose data run past the end.
unfoldable pub Counted : ℕ → SalvageResult → ℕ → Type 0
Counted len result pos =
    (result.members_total ≡ result.members_verified)
    ⊎ ((result.members_total ≡ suc result.members_verified) × (pos ≡ len))

data_fits→le : (start size len : ℕ) → data_fits start size len ≡ true → start + size ≤ len
unfolding data_fits
data_fits→le start size len h = ground arith

-- What the loop keeps.
pub record IsWalk (input : Bytes) (walk : Walk) : Type 0 where
  pub members : Members input 0 walk.result.segments walk.pos
  pub tallied : IsTallied walk.result
  pub counted : Counted (length input) walk.result walk.pos

-- Only the last round may have met a member that is not verified.
Counted-here :
    (len : ℕ) (result : SalvageResult) (pos : ℕ)
    → Counted len result pos
    → pos + 512 ≤ len
    → result.members_total ≡ result.members_verified
unfolding Counted
Counted-here len result pos (inl e) l = e
Counted-here len result pos (inr e) l = omega (arith, e.1)

module _ (input : Bytes) (walk : Walk) (h : IsWalk input walk)
    (l : walk.pos + 512 ≤ length input) where
  skip_zeros-IsWalk : IsWalk input (skip_zeros walk)
  unfolding skip_zeros Counted
  skip_zeros-IsWalk = record {
    members = Members-extend input 0 walk.pos (walk.pos + 512) _ h.members (omega arith);
    tallied = h.tallied;
    counted = inl (Counted-here (length input) walk.result walk.pos h.counted l);
  }

  skip_garbage-IsWalk : IsWalk input (skip_garbage walk)
  unfolding skip_garbage Counted
  skip_garbage-IsWalk = record {
    members = Members-extend input 0 walk.pos (walk.pos + 512) _ h.members (omega arith);
    tallied = h.tallied;
    counted = inl (Counted-here (length input) walk.result walk.pos h.counted l);
  }

  skip_mismatch-IsWalk : IsWalk input (skip_mismatch walk)
  unfolding skip_mismatch Counted verified_payload
  skip_mismatch-IsWalk = record {
    members = Members-extend input 0 walk.pos (walk.pos + 512) _ h.members (omega arith);
    tallied = record {
      bytes = h.tallied.bytes;
      members = h.tallied.members;
      others = h.tallied.others;
    };
    counted = inl (Counted-here (length input) walk.result walk.pos h.counted l);
  }

  abstain-IsWalk : (block : Bytes) → IsWalk input (abstain input block walk)
  unfolding abstain count_member Counted verified_payload
  abstain-IsWalk block = record {
    members = Members-extend input 0 walk.pos (length input) _ h.members (omega arith);
    tallied = record {
      bytes = h.tallied.bytes;
      members = h.tallied.members;
      others = h.tallied.others;
    };
    counted = inr (ap suc (Counted-here (length input) walk.result walk.pos h.counted l), refl);
  }

  -- The member at the walk's position, when its data are there.
  keep_member-IsWalk :
      is_ustar (slice walk.pos (walk.pos + 512) input) ≡ true
      → checksum_ok (slice walk.pos (walk.pos + 512) input) ≡ true
      → walk.pos + 512 + size_of (slice walk.pos (walk.pos + 512) input) ≤ length input
      → IsWalk input (keep_member input (slice walk.pos (walk.pos + 512) input) walk)
  unfolding keep_member push count_member member_at is_verified Counted
  keep_member-IsWalk magic own fits =
      let block = slice walk.pos (walk.pos + 512) input in
      let size = size_of block in
      record {
        members =
            Members-append input 0 walk.pos (walk.pos + 512 + blocks_of size * 512)
              walk.result.segments (member_at input block walk.pos) h.members
              (record {
                kind = refl;
                magic = magic;
                own = own;
                named = refl;
                body = refl;
                inside = omega arith;
                ended = refl;
                within = omega arith;
              })
              (omega arith) (omega arith);
        tallied = push-IsTallied (member_at input block walk.pos) (count_member walk.result) (
            unfold verified_payload in
            record {
              bytes = h.tallied.bytes;
              members = h.tallied.members;
              others = h.tallied.others;
            });
        counted = inl (ap suc (Counted-here (length input) walk.result walk.pos h.counted l));
      }

  take_member-IsWalk :
      is_ustar (slice walk.pos (walk.pos + 512) input) ≡ true
      → checksum_ok (slice walk.pos (walk.pos + 512) input) ≡ true
      → IsWalk input (take_member input (slice walk.pos (walk.pos + 512) input) walk)
  unfolding take_member
  take_member-IsWalk magic own =
      let block = slice walk.pos (walk.pos + 512) input in
      elim (Bool-cases (data_fits (walk.pos + 512) (size_of block) (length input))) [
        | inl fits ↦ simp fits (
            keep_member-IsWalk magic own
              (data_fits→le (walk.pos + 512) (size_of block) (length input) fits))
        | inr over ↦ simp over (abstain-IsWalk block)
      ]

  tar_round-IsWalk : IsWalk input (tar_round input walk)
  unfolding tar_round on_block
  tar_round-IsWalk =
      let block = slice walk.pos (walk.pos + 512) input in
      elim (Bool-cases (all_zero block)) [
        | inl zeros ↦ simp zeros skip_zeros-IsWalk
        | inr more ↦ elim (Bool-cases (is_ustar block)) [
          | inr other ↦ simp (more, other) skip_garbage-IsWalk
          | inl magic ↦ elim (Bool-cases (checksum_ok block)) [
            | inl own ↦ simp (more, magic, own) (take_member-IsWalk magic own)
            | inr bad ↦ simp (more, magic, bad) skip_mismatch-IsWalk
          ]
        ]
      ]

pub salvage_loop-IsWalk :
    (rounds : ℕ) (input : Bytes) (walk : Walk)
    → IsWalk input walk
    → IsWalk input (salvage_loop rounds input walk)
unfolding salvage_loop
salvage_loop-IsWalk zero input walk h = h
salvage_loop-IsWalk (suc rounds) input walk h =
    elim (Bool-cases (leb (walk.pos + 512) (length input))) [
      | inl more ↦ simp more (
          salvage_loop-IsWalk rounds input (tar_round input walk)
            (tar_round-IsWalk input walk h (leb→le _ _ more)))
      | inr done ↦ simp done h
    ]
