-- ===== src/Strategies/ResyncArchive.antt =====
-- The archive of strategies/tar_size_resync.rs, salvaged.
use veraqis_recover.Prelude.{
  ℕ, suc, ap₂, Option, if◌then◌else◌, ◌+◌, ◌-◌, ◌/◌, ◌^◌, ◌≤◌, ◌<◌, ◌≡◌, refl, sym, ap, ◌∙◌, true,
  false, Bytes, IsByte, All, some, List, [], ◌∷◌, ◌++◌, append-nil, ◌⊎◌, length, replicate,
  length-append, All-append, arith, inl, inr,
}
use veraqis_recover.Prelude.Results.{ok}
use veraqis_recover.Recovery.Model.{DataSource, read_all, RecoveryReport, empty}
use veraqis_recover.Resync.Tar.{salvage_tar}
use veraqis_recover.Resync.Spans.{Item, stream, IsItem, Content, contents_of, members_of}
use veraqis_recover.Resync.Continues.{salvage_tar_continues}
use veraqis_recover.Resync.Terminated.{members_of-gaps, two_gaps, two_gaps_good, with_terminator}
use veraqis_recover.Strategies.SizeResync.{
  headers_from, find_end_of_archive, next_boundary, add_entry, resync_entries, resync_archive,
  size_resync_report, size_resync_result, apply_size_resync,
}
use veraqis_recover.Strategies.ResyncReads.{
  entry_item, entry_content, entry_data, entry_blocks, entry_size, header_block, blocks_fit,
  entry_good, entry_held, length-entry, entry_written, entry_bytes,
}
use veraqis_recover.Strategies.ResyncContents.{
  HasAllHeaders, IsEnd, HasContents, headers_from-HasAllHeaders, find_end_of_archive-IsEnd,
  true_size-HasContent,
}
use veraqis_recover.Strategies.ResyncPositions.{
  Positions, headers_from-Positions, end_from_bound, next_boundary_bound,
}

-- The entries as items, and what they hold.
unfoldable pub entry_items : Bytes → ℕ → List ℕ → List Item
entry_items input eoa [] = []
entry_items input eoa (offset ∷ offsets) =
    entry_item input offset (next_boundary eoa offsets) ∷ entry_items input eoa offsets

unfoldable pub entry_contents : Bytes → ℕ → List ℕ → List Content
entry_contents input eoa [] = []
entry_contents input eoa (offset ∷ offsets) =
    entry_content input offset (next_boundary eoa offsets) ∷ entry_contents input eoa offsets

abbrev with_count : Bytes → ℕ → Option (Bytes × ℕ)
with_count bytes count = some (bytes, count)

module _ (input : Bytes) (eoa : ℕ) (h : All IsByte input) (s : length input < 8 ^ 11)
    (e : eoa ≤ length input) where
  entries_good :
      (from : ℕ) (offsets : List ℕ)
      → Positions input from offsets
      → All IsItem (entry_items input eoa offsets)
  unfolding entry_items Positions
  entries_good from [] p = tt
  entries_good from (o ∷ offsets) p = (
    entry_good input o (next_boundary eoa offsets) h p.1 p.2
        (next_boundary_bound input eoa (o + 512) offsets e p.3) s,
    entries_good (o + 512) offsets p.3,
  )

  entries_held :
      (from : ℕ) (offsets : List ℕ)
      → Positions input from offsets
      → members_of (entry_items input eoa offsets) ≡ entry_contents input eoa offsets
  unfolding entry_items entry_contents Positions
  entries_held from [] p = unfold members_of in refl
  entries_held from (o ∷ offsets) p =
      entry_held input o (next_boundary eoa offsets) h p.1 p.2
        (next_boundary_bound input eoa (o + 512) offsets e p.3) s (entry_items input eoa offsets)
      ∙ ap (λ (cs : List Content). entry_content input o (next_boundary eoa offsets) ∷ cs)
          (entries_held (o + 512) offsets p.3)

  entries_bytes :
      (from : ℕ) (offsets : List ℕ)
      → Positions input from offsets
      → (count : ℕ) × (resync_entries input eoa offsets
          ≡ some (stream (entry_items input eoa offsets) [], count))
  unfolding resync_entries entry_items stream Positions add_entry
  entries_bytes from [] p = (0, refl)
  entries_bytes from (o ∷ offsets) p =
      let next = next_boundary eoa offsets in
      let bound = next_boundary_bound input eoa (o + 512) offsets e p.3 in
      let (corrected, wrote) = entry_written input o next h p.1 p.2 bound s in
      let (count, later) = entries_bytes (o + 512) offsets p.3 in
      let total = if corrected then suc count else count in
      (
        total,
        ap₂ add_entry wrote later
            ∙ ap (λ (t : Bytes). with_count t total)
                (entry_bytes input o next (stream (entry_items input eoa offsets) [])),
      )

  -- What the entries hold is what the headers' data has to be.
  entries_content :
      (from : ℕ) (offsets : List ℕ)
      → Positions input from offsets
      → HasContents input eoa offsets (entry_contents input eoa offsets)
  unfolding entry_contents HasContents Positions next_boundary entry_content entry_data entry_blocks
      entry_size header_block
  entries_content from [] p = tt
  entries_content from (o ∷ []) p = (true_size-HasContent input o eoa e p.1, tt)
  entries_content from (o ∷ next ∷ offsets) p = (
    true_size-HasContent input o next (omega (arith, p.3.1)) p.1,
    entries_content (o + 512) (next ∷ offsets) p.3,
  )

  -- The entries have no more bytes than the input from the first header on.
  length-entries :
      (from : ℕ) (offsets : List ℕ)
      → from ≤ length input
      → Positions input from offsets
      → from + length (stream (entry_items input eoa offsets) []) ≤ length input
  unfolding entry_items Positions stream next_boundary
  length-entries from [] l p = omega arith
  length-entries from (o ∷ []) l p = omega (
    arith,
    p.0,
    p.1,
    e,
    blocks_fit input o eoa h p.1 p.2 e s,
    length-entry input o eoa h p.1 p.2 e s [],
  )
  length-entries from (o ∷ next ∷ offsets) l p =
      let ends : next ≤ length input = omega (arith, p.3.1) in
      omega (
        arith,
        p.0,
        p.1,
        p.3.0,
        blocks_fit input o next h p.1 p.2 ends s,
        length-entry input o next h p.1 p.2 ends s
            (stream (entry_items input eoa (next ∷ offsets)) []),
        length-entries next (next ∷ offsets) ends (omega arith, p.3.1, p.3.2, p.3.3),
      )

-- The archive is written, and is salvaged.
resync_archive_salvages :
    (input : Bytes)
    → All IsByte input
    → length input < 8 ^ 11
    → (out : Bytes × ℕ) × (resync_archive input ≡ some out)
      × HasContents input
          (find_end_of_archive input (length input / 512))
          (headers_from input 0 (length input / 512))
          (contents_of (salvage_tar out.0))
unfolding resync_archive
resync_archive_salvages input h s =
    let eoa = find_end_of_archive input (length input / 512) in
    let offsets = headers_from input 0 (length input / 512) in
    let items = entry_items input eoa offsets in
    let bound : eoa ≤ length input =
      unfold find_end_of_archive in
      omega (
        arith,
        end_from_bound input (length input / 512) 0 (length input / 512 - 1) (omega arith),
      ) in
    let at : Positions input 0 offsets =
      headers_from-Positions input 0 (length input / 512) (omega arith) in
    let (count, wrote) = entries_bytes input eoa h s bound 0 offsets at in
    let same : stream items [] ++ replicate 1024 0 ≡ stream (items ++ two_gaps) [] =
      with_terminator items in
    let short = length-entries input eoa h s bound 0 offsets (omega arith) at in
    let salvaged =
      ap (λ (t : Bytes). contents_of (salvage_tar t)) same
      ∙ (salvage_tar_continues (items ++ two_gaps) []
            (All-append IsItem items two_gaps (entries_good input eoa h s bound 0 offsets at)
              two_gaps_good)
            (omega arith)
            (omega (
              arith,
              short,
              s,
              ap length (sym (with_terminator items)),
              length-append (stream items []) (replicate 1024 0),
            ))
          ∙ (members_of-gaps items (replicate 512 0)
              ∙ entries_held input eoa h s bound 0 offsets at)) in
    (
      (stream items [] ++ replicate 1024 0, count),
      rw wrote refl,
      rw salvaged (entries_content input eoa h s bound 0 offsets at),
    )

-- What is staged behind the sink: nothing, if no block has the magic, or else an archive in which
-- the salvage finds the contents of all blocks with the magic.
pub record IsResynced (sink input : Bytes) (out : Bytes × RecoveryReport) : Type 0 where
  pub staged : Bytes
  pub written : out.0 ≡ sink ++ staged
  pub offsets : List ℕ
  pub in_order : Positions input 0 offsets
  pub all_found : HasAllHeaders input offsets
  pub end : ℕ
  pub ended : IsEnd input end
  pub outcome :
      ((offsets ≡ []) × (staged ≡ []) × (out.1.success ≡ false))
      ⊎ (HasContents input end offsets (contents_of (salvage_tar staged))
          × (out.1.bytes_recovered ≡ length staged)
          × (out.1.success ≡ true))

size_resync_result-IsResynced :
    (sink input : Bytes) (archive : Bytes × ℕ) (offsets : List ℕ)
    → Positions input 0 offsets
    → HasAllHeaders input offsets
    → resync_archive input ≡ some archive
    → HasContents input
        (find_end_of_archive input (length input / 512))
        offsets
        (contents_of (salvage_tar archive.0))
    → (out : Bytes × RecoveryReport) × (size_resync_result sink input offsets ≡ some out)
      × IsResynced sink input out
unfolding size_resync_result size_resync_report empty
size_resync_result-IsResynced sink input archive [] at all wrote h = (
  _,
  refl,
  record {
    staged = [];
    written = sym (append-nil sink);
    offsets = [];
    in_order = at;
    all_found = all;
    end = find_end_of_archive input (length input / 512);
    ended = find_end_of_archive-IsEnd input;
    outcome = inl (refl, refl, refl);
  },
)
size_resync_result-IsResynced sink input (staged, corrected) (offset ∷ offsets) at all wrote h = (
  (sink ++ staged, size_resync_report input (offset ∷ offsets) (staged, corrected)),
  rw wrote refl,
  record {
    staged = staged;
    written = refl;
    offsets = offset ∷ offsets;
    in_order = at;
    all_found = all;
    end = find_end_of_archive input (length input / 512);
    ended = find_end_of_archive-IsEnd input;
    outcome = inr (h, refl, refl);
  },
)

-- The size resynchronisation of a source of bytes, shorter than 8^11, does not panic. It stages
-- nothing and reports no success if no whole block has the ustar magic, and else stages an archive
-- and reports its length: the salvage of the archive finds for each block with the magic, in order, a
-- member with the name in that header, and with the data behind it in the input, cut to the header's
-- size if its blocks end before the next header or the end of the archive, and to the whole blocks
-- before that if not. The end of the archive is at the first two blocks of zeros, or else the end of
-- the whole blocks.
pub apply_size_resync_salvages :
    (source : DataSource) (sink input : Bytes)
    → source.content ≡ some input
    → All IsByte input
    → length input < 8 ^ 11
    → (out : Bytes × RecoveryReport) × (apply_size_resync source sink ≡ ok (some out))
      × IsResynced sink input out
unfolding apply_size_resync read_all
apply_size_resync_salvages source sink input e h s =
    let (archive, wrote, held) = resync_archive_salvages input h s in
    let (out, gave, resynced) =
      size_resync_result-IsResynced sink input archive (headers_from input 0 (length input / 512))
        (headers_from-Positions input 0 (length input / 512) (omega arith))
        (headers_from-HasAllHeaders input) wrote held in
    (out, rw e (ap ok gave), resynced)
