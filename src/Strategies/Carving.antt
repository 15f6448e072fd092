-- ===== src/Strategies/Carving.antt =====
-- The regions of strategies/forensic_carve.rs.
use veraqis_recover.Prelude.{◌≡◌, ◌⊎◌, [], ◌++◌, Bytes, length, drop}
use veraqis_recover.Recovery.Model.{RecoveryReport}
use veraqis_recover.Strategies.ForensicCarve.{Hit}
use veraqis_recover.Strategies.Scan.{IsHit, HasNoneBefore}

-- What is staged.
pub record IsCarved (sink input : Bytes) (out : Bytes × RecoveryReport) : Type 0 where
  pub staged : Bytes
  pub written : out.0 ≡ sink ++ staged
  pub counted : out.1.bytes_recovered ≡ length staged
  pub outcome :
      (HasNoneBefore (length input) input × (staged ≡ []))
      ⊎ ((first : Hit) × IsHit input first
          × HasNoneBefore first.0 input
          × (staged ≡ drop first.0 input))
