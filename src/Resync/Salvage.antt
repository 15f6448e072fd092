-- ===== src/Resync/Salvage.antt =====
-- What crates/phx_recovery/src/resync/tar.rs gives back.
use veraqis_recover.Prelude.{
  suc, ◌/◌, ◌≤◌, refl, inl, inr, Bool, true, false, Bytes, ltb, length, arith, Bool-cases,
}
use veraqis_recover.Recovery.Model.{Message}
use veraqis_recover.Resync.{SalvageResult, new, warn, verified_payload}
use veraqis_recover.Resync.Tallies.{IsTallied, new-IsTallied}
use veraqis_recover.Resync.Members.{Members, Members-within}
use veraqis_recover.Resync.Rounds.{Counted, IsWalk, salvage_loop-IsWalk}
use veraqis_recover.Resync.Tar.{warn_if, summary, Walk, started_walk, salvage_tar}

-- The members are those of the input, in order and apart, the tallies are theirs, and one member at
-- most was met that is not among them.
pub record IsSalvage (input : Bytes) (result : SalvageResult) : Type 0 where
  pub members : Members input 0 result.segments (length input)
  pub tallied : IsTallied result
  pub at_least : result.members_verified ≤ result.members_total
  pub at_most : result.members_total ≤ suc result.members_verified

module _ (input : Bytes) where
  warn-IsSalvage :
      (message : Message) (result : SalvageResult)
      → IsSalvage input result
      → IsSalvage input (warn message result)
  unfolding verified_payload
  warn-IsSalvage message result h = record {
    members = h.members;
    tallied = record {
      bytes = h.tallied.bytes;
      members = h.tallied.members;
      others = h.tallied.others;
    };
    at_least = h.at_least;
    at_most = h.at_most;
  }

  warn_if-IsSalvage :
      (b : Bool) (message : Message) (result : SalvageResult)
      → IsSalvage input result
      → IsSalvage input (warn_if b message result)
  unfolding warn_if
  warn_if-IsSalvage true message result h = warn-IsSalvage message result h
  warn_if-IsSalvage false message result h = h

  summary-IsSalvage : (walk : Walk) → IsSalvage input walk.result → IsSalvage input (summary walk)
  unfolding summary
  summary-IsSalvage walk h =
      warn_if-IsSalvage _ _ _ (warn_if-IsSalvage _ _ _ (warn_if-IsSalvage _ _ walk.result h))

  walk-IsSalvage : (walk : Walk) → IsWalk input walk → IsSalvage input walk.result
  unfolding Counted
  walk-IsSalvage walk h = record {
    members = Members-within input 0 walk.pos _ h.members (omega arith);
    tallied = h.tallied;
    at_least = elim h.counted [ inl e ↦ omega (arith, e) | inr e ↦ omega (arith, e.0) ];
    at_most = elim h.counted [ inl e ↦ omega (arith, e) | inr e ↦ omega (arith, e.0) ];
  }

  new-IsSalvage : IsSalvage input (new "tar")
  unfolding new Members
  new-IsSalvage = record {
    members = omega arith;
    tallied = new-IsTallied "tar";
    at_least = omega arith;
    at_most = omega arith;
  }

  start-IsWalk : IsWalk input started_walk
  unfolding started_walk new Members Counted
  start-IsWalk = record { members = omega arith; tallied = new-IsTallied "tar"; counted = inl refl }

  -- The salvage of any byte string gives members of it, in order and apart, each behind a ustar
  -- header with its own checksum and with the name and the bytes that the header declares; the
  -- tallies are those of the members, and one member at most was met that is not among them.
  pub salvage_tar-IsSalvage : IsSalvage input (salvage_tar input)
  unfolding salvage_tar
  salvage_tar-IsSalvage = elim (Bool-cases (ltb (length input) 512)) [
    | inl short ↦ simp short (warn-IsSalvage _ (new "tar") new-IsSalvage)
    | inr long ↦ simp long (
        summary-IsSalvage _ (
          walk-IsSalvage _
            (salvage_loop-IsWalk (length input / 512) input started_walk start-IsWalk)))
  ]
