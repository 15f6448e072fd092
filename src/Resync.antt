-- ===== src/Resync.antt =====
-- crates/phx_recovery/src/resync/mod.rs: what a salvage of a container gives back, and its tallies.
pub mod Tallies
pub mod Tar
pub mod Members
pub mod Rounds
pub mod Salvage
pub mod Termination
pub mod Spans
pub mod ItemRounds
pub mod Continues
pub mod OctalFields
pub mod Terminated
pub mod Build
pub mod Stored
pub mod Gzip
pub mod GzipWalk
pub mod GzipProven
pub mod GzipSteps
pub mod GzipStarts
pub mod GzipSalvage
pub mod StoredBlocks
mod Tests
mod GzipTests
use veraqis_recover.Prelude.{
  ℕ, suc, ◌+◌, Bool, true, false, Option, List, [], ◌∷◌, ◌++◌, Bytes, if◌then◌else◌, length,
}
use veraqis_recover.Prelude.Texts.{String}
use veraqis_recover.Recovery.Model.{Message}

pub data SegmentKind : Type 0 where
  verified_gzip_member verified_tar_member stored_block_salvage partial_inflate : SegmentKind

unfoldable pub is_verified : SegmentKind → Bool
is_verified verified_gzip_member = true
is_verified verified_tar_member = true
is_verified stored_block_salvage = false
is_verified partial_inflate = false

pub record Segment : Type 0 where
  pub kind : SegmentKind
  pub name : Option Message
  pub source_offset : ℕ
  pub source_end : ℕ
  pub bytes : Bytes
  pub note : Message

abbrev pub verified : Segment → Bool
unfolding is_verified
verified segment = is_verified segment.kind

pub record SalvageResult : Type 0 where
  pub format : String
  pub segments : List Segment
  pub members_total : ℕ
  pub members_verified : ℕ
  pub verified_bytes : ℕ
  pub unverified_bytes : ℕ
  pub warnings : List Message

unfoldable pub new : String → SalvageResult
new format = record {
  format = format;
  segments = [];
  members_total = 0;
  members_verified = 0;
  verified_bytes = 0;
  unverified_bytes = 0;
  warnings = [];
}

-- A segment recorded, with the tallies of bytes and members.
unfoldable pub push : Segment → SalvageResult → SalvageResult
push segment result =
    if verified segment
    then record result {
      segments = result.segments ++ segment ∷ [];
      members_verified = suc result.members_verified;
      verified_bytes = result.verified_bytes + length segment.bytes;
    }
    else record result {
      segments = result.segments ++ segment ∷ [];
      unverified_bytes = result.unverified_bytes + length segment.bytes;
    }

-- The `for` loop of `verified_payload`.
unfoldable pub payload_of : List Segment → Bytes
payload_of [] = []
payload_of (segment ∷ segments) =
    let rest = payload_of segments in if verified segment then segment.bytes ++ rest else rest

unfoldable pub verified_payload : SalvageResult → Bytes
verified_payload result = payload_of result.segments

-- `warnings.push(..)`.
abbrev pub warn : Message → SalvageResult → SalvageResult
warn message result = record result { warnings = result.warnings ++ message ∷ [] }
