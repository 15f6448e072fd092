-- ===== src/Evidence/Tests.antt =====
-- Records of the three axes, and what the guards make of them.
use veraqis_recover.Prelude.{◌≡◌, ◌↔◌, refl, true, min, ◌^◌, ◌-◌, All}
use veraqis_recover.Evidence.{
  EvidenceRecord, Region, new_algebraic_independent, new_structural_unique, base,
  add_solved_against, verified_by, finish, ok, can_emit, raises_health, evidence_bits,
  first_tautology, overlaps, coincides, after_tautology, class_guard, bits_on, sum_widths,
  saturating_add, is_some, raises,
}
use veraqis_recover.Evidence.Guards.{
  IsIndependent, Basis, RaisingBasis, total_width, on_probabilistic, evidence_bits-total_width,
  finish_iff, finish-can_emit, raises_health-can_emit, raises_health_iff,
}

-- Solved against the first 16 bytes, verified by a CRC-32 over the next.
abbrev region_0_16 : Region
region_0_16 = (0, 16)

abbrev region_16_32 : Region
region_16_32 = (16, 32)

solved : EvidenceRecord
unfolding new_algebraic_independent base add_solved_against verified_by
solved =
    verified_by (add_solved_against new_algebraic_independent "crc32" region_0_16) "crc32" 32
      region_16_32

unique : EvidenceRecord
unfolding new_structural_unique base
unique = new_structural_unique true true

evidence_bits-total_width_example :
    evidence_bits solved
    ≡ on_probabilistic solved.axis (min (total_width solved.independent_verifiers) (2 ^ 32 - 1))
evidence_bits-total_width_example = evidence_bits-total_width solved

finish_iff_example : (finish solved ≡ ok solved) ↔ (
    All (IsIndependent solved.solved_against) solved.independent_verifiers
    × Basis solved.axis solved.class solved)
finish_iff_example = finish_iff solved

solved_finishes : finish solved ≡ ok solved
unfolding solved new_algebraic_independent base add_solved_against verified_by finish
    first_tautology overlaps coincides after_tautology class_guard evidence_bits bits_on sum_widths
    saturating_add is_some
solved_finishes = refl

finish-can_emit_example : (solved ≡ solved) × (can_emit solved ≡ true)
finish-can_emit_example = finish-can_emit solved solved solved_finishes

unique_raises : raises_health unique ≡ true
unfolding unique new_structural_unique base raises_health raises
unique_raises = refl

raises_health-can_emit_example : can_emit unique ≡ true
raises_health-can_emit_example = raises_health-can_emit unique unique_raises

raises_health_iff_example :
    (raises_health solved ≡ true) ↔ RaisingBasis solved.axis solved.class solved
raises_health_iff_example = raises_health_iff solved
