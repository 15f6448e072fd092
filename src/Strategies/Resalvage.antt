-- ===== src/Strategies/Resalvage.antt =====
-- The archive that strategies/tar_continuation_salvage.rs writes, salvaged again.
use veraqis_recover.Prelude.{
  ℕ, ◌+◌, ◌-◌, ◌*◌, ◌^◌, ◌≤◌, ◌<◌, ◌≡◌, refl, sym, ap, ◌∙◌, some, List, [], ◌∷◌, ◌++◌, All-append,
  append-nil, Bytes, ◌==◌, length, length-append, length-replicate, replicate, arith, Bool-cases,
  true, false, ◌==◌, ◌⊎◌, inl, inr,
}
use veraqis_recover.Resync.{Segment}
use veraqis_recover.Resync.Members.{Members}
use veraqis_recover.Resync.Salvage.{salvage_tar-IsSalvage}
use veraqis_recover.Resync.Tar.{blocks_of, salvage_tar}
use veraqis_recover.Resync.Spans.{stream, IsItem, contents_of}
use veraqis_recover.Resync.Continues.{salvage_tar_continues}
use veraqis_recover.Resync.Terminated.{members_of-gaps, two_gaps, two_gaps_good, with_terminator}
use veraqis_recover.Strategies.Filling.{fill_block_lem}
use veraqis_recover.Recovery.Model.{DataSource, read_all, RecoveryReport, empty}
use veraqis_recover.Prelude.Results.{ok}
use veraqis_recover.Strategies.ContinuationSalvage.{
  apply_continuation, continuation_result, spliced, fill_block, rebuilt,
}
use veraqis_recover.Strategies.Rebuild.{
  Rebuilt, Members-Rebuilt, header_of, data_of, length-data_of, length-header_of, spliced_step,
}

-- The archive, salvaged again.
rebuilt_resalvages :
    (input : Bytes)
    → length (rebuilt input (salvage_tar input).segments) < 2 ^ 64
    → contents_of (salvage_tar (rebuilt input (salvage_tar input).segments))
      ≡ contents_of (salvage_tar input)
unfolding rebuilt
rebuilt_resalvages input small =
    let found = (salvage_tar input).segments in
    let r : Rebuilt input found =
      Members-Rebuilt input 0 (length input) found (salvage_tar-IsSalvage input).members in
    let same : fill_block (spliced input found) ++ replicate 1024 0
        ≡ stream (r.items ++ two_gaps) [] =
      ap (λ (t : Bytes). t ++ replicate 1024 0) r.same ∙ with_terminator r.items in
    ap (λ (t : Bytes). contents_of (salvage_tar t)) same
    ∙ (salvage_tar_continues (r.items ++ two_gaps) []
          (All-append IsItem r.items two_gaps r.good two_gaps_good) (omega arith)
          (omega (arith, small, ap length same))
        ∙ (members_of-gaps r.items (replicate 512 0) ∙ (r.held ∙ unfold contents_of in refl)))

length-spliced :
    (input : Bytes) (from : ℕ) (segments : List Segment)
    → Members input from segments (length input)
    → from + length (spliced input segments) ≤ length input
unfolding Members spliced
length-spliced input from [] h = omega (arith, h)
length-spliced input from (s ∷ ss) h =
    let rest = length-spliced input s.source_end ss h.2 in
    let data_length = length-data_of input s h.0 in
    let header_length = length-header_of input s h.0 in
    let parts =
      ap length (spliced_step input s h.0 ss)
      ∙ length-append (header_of input s h.0) (data_of input s h.0 ++ spliced input ss) in
    omega (
      arith,
      h.1,
      h.0.inside,
      rest,
      data_length,
      header_length,
      parts,
      length-append (data_of input s h.0) (spliced input ss),
    )

-- An archive has little more than the bytes of the members.
length-rebuilt :
    (input : Bytes) → length (rebuilt input (salvage_tar input).segments) ≤ length input + 1535
unfolding rebuilt
length-rebuilt input =
    let found = (salvage_tar input).segments in
    let out = spliced input found in
    let fill = blocks_of (length out) * 512 - length out in
    omega (
      arith,
      length-append (fill_block out) (replicate 1024 0),
      ap length (fill_block_lem out),
      length-append out (replicate fill 0),
      length-replicate {A = ℕ} fill 0,
      length-spliced input 0 found (salvage_tar-IsSalvage input).members,
    )

-- What is staged behind the sink, and what the report says of it: nothing and no success, or an
-- archive that holds the members of the input.
pub record IsOutcome (sink input : Bytes) (out : Bytes × RecoveryReport) : Type 0 where
  pub staged : Bytes
  pub written : out.0 ≡ sink ++ staged
  pub outcome :
      ((staged ≡ []) × (out.1.success ≡ false))
      ⊎ ((contents_of (salvage_tar staged) ≡ contents_of (salvage_tar input))
          × (out.1.bytes_recovered ≡ length staged)
          × (out.1.success ≡ true))

result-IsOutcome :
    (sink input : Bytes)
    → length input < 2 ^ 63
    → IsOutcome sink input (continuation_result sink input (salvage_tar input))
unfolding continuation_result empty
result-IsOutcome sink input small =
    let salvage = salvage_tar input in
    elim (Bool-cases (salvage.members_verified == 0)) [
      | inl none_found ↦
          simp none_found
            (record { staged = []; written = sym (append-nil sink); outcome = inl (refl, refl) })
      | inr found ↦ elim (Bool-cases (length (spliced input salvage.segments) == 0)) [
        | inl hollow ↦
            simp (found, hollow)
              (record { staged = []; written = sym (append-nil sink); outcome = inl (refl, refl) })
        | inr full ↦
            simp (found, full)
              (record {
                staged = rebuilt input salvage.segments;
                written = refl;
                outcome =
                    inr
                      (rebuilt_resalvages input (omega (arith, length-rebuilt input)), refl, refl);
              })
      ]
    ]

-- The continuation salvage of a source that can be read stages nothing, and reports no success, or
-- stages an archive, reports its length, and the salvage of this archive finds the same members as
-- that of the input, each by its name and its bytes; the input is shorter than 2^63 bytes.
pub apply_continuation_resalvages :
    (source : DataSource) (sink input : Bytes)
    → source.content ≡ some input
    → length input < 2 ^ 63
    → (out : Bytes × RecoveryReport) × (apply_continuation source sink ≡ ok out)
      × IsOutcome sink input out
unfolding apply_continuation read_all
apply_continuation_resalvages source sink input e small = (
  continuation_result sink input (salvage_tar input),
  rw e refl,
  result-IsOutcome sink input small,
)
