-- ===== src/Strategies/Runs.antt =====
-- The strategies of crates/phx_recovery/src/strategies that are modelled, over any source and sink.
use veraqis_recover.Prelude.{
  refl, inl, inr, Option, none, some, List, [], ◌∷◌, Bytes, All, length, ◌==◌, ℕ, ◌&&◌, Bool-cases,
}
use veraqis_recover.Prelude.Results.{ok}
use veraqis_recover.Recovery.Model.{empty, RecoveryStrategy, DataSource}
use veraqis_recover.Ustar.{all_zero}
use veraqis_recover.SevenZ.{SignatureRepair, repair_signature}
use veraqis_recover.Resync.Gzip.{Flate}
use veraqis_recover.Resync.{SalvageResult}
use veraqis_recover.Resync.Tar.{salvage_tar}
use veraqis_recover.Strategies.Verbatim.{
  verbatim, bitflip_report, tar_reorder_report, partial_extract_report, iso_sector_report,
  bit_flip_correction, tar_block_reorder, partial_extraction, iso_sector_reconstruction,
}
use veraqis_recover.Strategies.TarRepair.{
  checksum_fix_result, fix_checksums, apply_checksum_fix, tar_checksum_fix, apply_terminator_append,
  tar_terminator_append, terminate,
}
use veraqis_recover.Strategies.SevenZRestore.{
  restored, apply_signature_restore, sevenz_signature_restore,
}
use veraqis_recover.Strategies.ContinuationSalvage.{
  continuation_result, apply_continuation, tar_continuation_salvage, spliced, rebuilt,
}
use veraqis_recover.Strategies.GzRestore.{
  gz_magic_restore, gz_trailer_recompute, gz_partial_inflate,
}
use veraqis_recover.Strategies.ForensicCarve.{
  Hit, scan_signatures, carve, carve_result, apply_carve, forensic_carving,
}
use veraqis_recover.Strategies.Behaves.{IsRun, extended, Behaves, checked, unchanged}
use veraqis_recover.Strategies.GzRuns.{magic_checked, trailer_checked, inflate_checked}

-- The registered strategies but for those of ZIP, and the salvage of GZIP members and the resync of
-- sizes in a TAR, which may panic.
abbrev pub strategies : Flate → List RecoveryStrategy
strategies flate =
    bit_flip_correction
    ∷ tar_block_reorder
    ∷ partial_extraction
    ∷ iso_sector_reconstruction
    ∷ tar_checksum_fix
    ∷ tar_terminator_append
    ∷ tar_continuation_salvage
    ∷ sevenz_signature_restore
    ∷ forensic_carving
    ∷ gz_magic_restore
    ∷ gz_trailer_recompute flate
    ∷ gz_partial_inflate flate
    ∷ []

module _ (source : DataSource) (sink : Bytes) where
  -- The strategies that copy.
  bitflip_checked : Behaves source sink bit_flip_correction
  unfolding bit_flip_correction verbatim bitflip_report empty
  bitflip_checked =
      checked source sink bit_flip_correction _ refl
        (λ input. extended (record { staged = input; written = refl; named = refl }))

  reorder_checked : Behaves source sink tar_block_reorder
  unfolding tar_block_reorder verbatim tar_reorder_report empty
  reorder_checked =
      checked source sink tar_block_reorder _ refl
        (λ input. extended (record { staged = input; written = refl; named = refl }))

  partial_checked : Behaves source sink partial_extraction
  unfolding partial_extraction verbatim partial_extract_report empty
  partial_checked =
      checked source sink partial_extraction _ refl
        (λ input. extended (record { staged = input; written = refl; named = refl }))

  sector_checked : Behaves source sink iso_sector_reconstruction
  unfolding iso_sector_reconstruction verbatim iso_sector_report empty
  sector_checked =
      checked source sink iso_sector_reconstruction _ refl
        (λ input. extended (record { staged = input; written = refl; named = refl }))

  -- The strategies for TAR.
  checksum_extends :
      (out : Bytes × ℕ) → IsRun sink "tar-checksum-fix" (ok (checksum_fix_result sink out))
  unfolding checksum_fix_result empty
  checksum_extends (repaired, fixed) = elim (Bool-cases (fixed == 0 && all_zero repaired)) [
    | inl nothing ↦ simp nothing (extended (unchanged sink "tar-checksum-fix" _ refl))
    | inr something ↦
        simp something (extended (record { staged = repaired; written = refl; named = refl }))
  ]

  checksum_checked : Behaves source sink tar_checksum_fix
  unfolding tar_checksum_fix apply_checksum_fix
  checksum_checked =
      checked source sink tar_checksum_fix _ refl (λ input. checksum_extends (fix_checksums input))

  terminator_checked : Behaves source sink tar_terminator_append
  unfolding tar_terminator_append apply_terminator_append empty
  terminator_checked =
      checked source sink tar_terminator_append _ refl
        (λ input. extended (record { staged = terminate input; written = refl; named = refl }))

  continuation_extends :
      (input : Bytes) (salvage : SalvageResult)
      → IsRun sink "tar-continuation-salvage" (ok (continuation_result sink input salvage))
  unfolding continuation_result empty
  continuation_extends input salvage = elim (Bool-cases (salvage.members_verified == 0)) [
    | inl nothing ↦ simp nothing (extended (unchanged sink "tar-continuation-salvage" _ refl))
    | inr found ↦ elim (Bool-cases (length (spliced input salvage.segments) == 0)) [
      | inl hollow ↦
          simp (found, hollow) (extended (unchanged sink "tar-continuation-salvage" _ refl))
      | inr full ↦
          simp (found, full)
            (extended
              (record { staged = rebuilt input salvage.segments; written = refl; named = refl }))
    ]
  ]

  continuation_checked : Behaves source sink tar_continuation_salvage
  unfolding tar_continuation_salvage apply_continuation
  continuation_checked =
      checked source sink tar_continuation_salvage _ refl
        (λ input. continuation_extends input (salvage_tar input))

  -- The strategy for 7z.
  signature_extends :
      (repair : Option SignatureRepair)
      → IsRun sink "sevenz-signature-restore" (ok (restored sink repair))
  unfolding restored empty
  signature_extends none = extended (unchanged sink "sevenz-signature-restore" _ refl)
  signature_extends (some repair) =
      extended (record { staged = repair.bytes; written = refl; named = refl })

  signature_checked : Behaves source sink sevenz_signature_restore
  unfolding sevenz_signature_restore apply_signature_restore
  signature_checked =
      checked source sink sevenz_signature_restore _ refl
        (λ input. signature_extends (repair_signature input))

  carve_extends :
      (input : Bytes) (hits : List Hit)
      → IsRun sink "forensic-carve" (ok (carve_result source sink input hits))
  unfolding carve_result empty
  carve_extends input [] = extended (unchanged sink "forensic-carve" _ refl)
  carve_extends input (hit ∷ hits) =
      extended (record { staged = (carve input 0 (hit ∷ hits)).0; written = refl; named = refl })

  carve_checked : Behaves source sink forensic_carving
  unfolding forensic_carving apply_carve
  carve_checked =
      checked source sink forensic_carving _ refl
        (λ input. carve_extends input (scan_signatures input))

  -- Each of the twelve strategies, on a source that cannot be read, fails with the input error for
  -- its path. On one that can, it gives a sink that begins with the one it was given and a report
  -- under its name alone, or fails under its name. The flate2 crate's parts are any.
  pub strategies_checked : (flate : Flate) → All (Behaves source sink) (strategies flate)
  strategies_checked flate = (
    bitflip_checked,
    (
      reorder_checked,
      (
        partial_checked,
        (
          sector_checked,
          (
            checksum_checked,
            (
              terminator_checked,
              (
                continuation_checked,
                (
                  signature_checked,
                  (
                    carve_checked,
                    (
                      magic_checked source sink,
                      (trailer_checked source sink flate, (inflate_checked source sink flate, tt)),
                    ),
                  ),
                ),
              ),
            ),
          ),
        ),
      ),
    ),
  )
