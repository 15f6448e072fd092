-- ===== src/Strategies/Rebuild.antt =====
-- The archive that strategies/tar_continuation_salvage.rs writes, as a stream of members.
use veraqis_recover.Prelude.{
  ℕ, ◌+◌, ◌-◌, ◌*◌, ◌≤◌, ◌<◌, ◌≡◌, refl, sym, ap, ap₂, Option, ◌∙◌, List, [], ◌∷◌, ◌++◌, map,
  append_assoc, append-nil, Bytes, All, le→leb, length, length-append, length-replicate,
  length-slice, take, drop, slice, take-append_left, take-take, slice_split, get_slice?, replicate,
  arith,
}
use veraqis_recover.Recovery.Model.{Message}
use veraqis_recover.Resync.{Segment}
use veraqis_recover.Resync.Members.{IsMember, Members}
use veraqis_recover.Resync.Tar.{size_of, blocks_of}
use veraqis_recover.Resync.Spans.{
  Item, member, item_onto, stream, IsWhole, IsItem, Content, content, members_of,
}
use veraqis_recover.Strategies.Filling.{fill_block_lem, fill_block-append}
use veraqis_recover.Strategies.ContinuationSalvage.{or_empty, spliced, fill_block}

-- The archive of some segments as a stream of items.
pub record Rebuilt (input : Bytes) (segments : List Segment) : Type 0 where
  pub items : List Item
  pub good : All IsItem items
  pub same : fill_block (spliced input segments) ≡ stream items []
  pub held : members_of items ≡ map content segments

module _ (input : Bytes) (s : Segment) (h : IsMember input s) where
  pub header_of : Bytes
  header_of = slice s.source_offset (s.source_offset + 512) input

  pub data_of : Bytes
  data_of = slice (s.source_offset + 512) s.source_end input

  fill_of : Bytes
  fill_of =
      replicate
        (blocks_of (size_of (slice s.source_offset (s.source_offset + 512) input)) * 512
          - length (slice (s.source_offset + 512) s.source_end input))
        0

  pub length-data_of : length data_of ≡ s.source_end - (s.source_offset + 512)
  unfolding data_of
  length-data_of =
      length-slice (s.source_offset + 512) s.source_end input (omega (arith, h.inside)) h.within

  -- The data that are there need as many blocks as the size.
  enough : length data_of ≤ blocks_of (size_of header_of) * 512
  unfolding header_of
  enough = omega (arith, length-data_of, h.ended)

  sizes : size_of header_of ≤ length data_of
  unfolding header_of
  sizes = omega (arith, length-data_of, h.inside)

  header_of-IsWhole : IsWhole header_of (data_of ++ fill_of)
  unfolding header_of data_of fill_of
  header_of-IsWhole = record {
    sized = omega (
      arith,
      length-slice s.source_offset (s.source_offset + 512) input (omega arith)
          (omega (arith, h.inside, h.within)),
    );
    magic = h.magic;
    own = h.own;
    padded = omega (
      arith,
      enough,
      length-append data_of fill_of,
      length-replicate {A = ℕ} (blocks_of (size_of header_of) * 512 - length data_of) 0,
    );
  }

  spliced_bytes : or_empty (get_slice? s.source_offset s.source_end input) ≡ header_of ++ data_of
  unfolding header_of data_of
  spliced_bytes =
      rw
        (
          le→leb s.source_offset s.source_end (omega (arith, h.inside)),
          le→leb s.source_end (length input) h.within,
        )
        (slice_split s.source_offset (s.source_offset + 512) s.source_end input (omega arith)
          (omega (arith, h.inside)))

  held_of : take (size_of header_of) (data_of ++ fill_of) ≡ s.bytes
  unfolding header_of data_of
  held_of =
      take-append_left (size_of header_of) data_of fill_of sizes
      ∙ (take-take (size_of header_of) (s.source_end - (s.source_offset + 512))
            (drop (s.source_offset + 512) input) (omega (arith, h.inside))
          ∙ (ap (λ (n : ℕ). take n (drop (s.source_offset + 512) input))
                {y = s.source_offset + 512 + size_of header_of - (s.source_offset + 512)}
                (omega arith)
              ∙ sym h.body))

  item_of : Item
  item_of = member header_of (data_of ++ fill_of)

  pub spliced_step :
      (ss : List Segment) → spliced input (s ∷ ss) ≡ header_of ++ (data_of ++ spliced input ss)
  unfolding spliced
  spliced_step ss = rw (h.kind, spliced_bytes) (append_assoc header_of data_of (spliced input ss))

  members_step : (items : List Item) → members_of (item_of ∷ items) ≡ content s ∷ members_of items
  unfolding members_of item_of content
  members_step items =
      ap₂ (λ (n : Option Message) (b : Bytes). (n, b) ∷ members_of items)
        (unfold header_of in sym h.named) held_of

  pub length-header_of : length header_of ≡ 1 * 512
  length-header_of = omega (arith, header_of-IsWhole.sized)

  -- The filling behind the last member is that of its data.
  last_filled :
      fill_block (header_of ++ (data_of ++ [])) ≡ header_of ++ ((data_of ++ fill_of) ++ [])
  unfolding fill_of header_of data_of
  last_filled =
      ap (λ (t : Bytes). fill_block (header_of ++ t)) (append-nil data_of)
      ∙ (fill_block-append 1 header_of data_of length-header_of
          ∙ ap (λ (t : Bytes). header_of ++ t)
              (fill_block_lem data_of
                ∙ (ap (λ (n : ℕ). data_of ++ replicate n 0)
                      {y = blocks_of (size_of header_of) * 512 - length data_of}
                      (omega (arith, enough, sizes))
                    ∙ sym (append-nil (data_of ++ fill_of)))))

  full : s.source_end < length input → length data_of ≡ blocks_of (size_of header_of) * 512
  unfolding header_of
  full inside = omega (arith, length-data_of, h.ended, inside)

  unfilled : s.source_end < length input → data_of ++ fill_of ≡ data_of
  unfolding fill_of header_of data_of
  unfilled inside =
      ap (λ (n : ℕ). data_of ++ replicate n 0) {y = 0} (omega (arith, full inside))
      ∙ append-nil data_of

  -- Whole data need no filling.
  next_filled :
      (out : Bytes)
      → s.source_end < length input
      → fill_block (header_of ++ (data_of ++ out))
        ≡ header_of ++ ((data_of ++ fill_of) ++ fill_block out)
  next_filled out inside =
      fill_block-append 1 header_of (data_of ++ out) length-header_of
      ∙ ap (λ (t : Bytes). header_of ++ t)
          (fill_block-append (blocks_of (size_of header_of)) data_of out (full inside)
            ∙ ap (λ (t : Bytes). t ++ fill_block out) (sym (unfilled inside)))

  -- The last member, perhaps short.
  last_archive : Rebuilt input (s ∷ [])
  unfolding stream item_onto IsItem members_of spliced
  last_archive = record {
    items = item_of ∷ [];
    good = (unfold item_of in header_of-IsWhole, tt);
    same = ap fill_block (spliced_step []) ∙ (unfold item_of in last_filled);
    held = members_step [];
  }

  -- A member before others is whole.
  next_archive :
      (ss : List Segment) → s.source_end < length input → Rebuilt input ss → Rebuilt input (s ∷ ss)
  unfolding stream item_onto IsItem
  next_archive ss inside rest = record {
    items = item_of ∷ rest.items;
    good = (unfold item_of in header_of-IsWhole, rest.good);
    same =
        ap fill_block (spliced_step ss)
        ∙ (next_filled (spliced input ss) inside
            ∙ ap (λ (t : Bytes). header_of ++ ((data_of ++ fill_of) ++ t)) rest.same
            ∙ unfold item_of in refl);
    held = members_step rest.items ∙ ap (λ (cs : List Content). content s ∷ cs) rest.held;
  }

empty_archive : (input : Bytes) → Rebuilt input []
unfolding fill_block spliced stream members_of
empty_archive input = record { items = []; good = tt; same = refl; held = refl }

pub Members-Rebuilt :
    (input : Bytes) (from to : ℕ) (segments : List Segment)
    → Members input from segments to
    → Rebuilt input segments
unfolding Members
Members-Rebuilt input from to [] h = empty_archive input
Members-Rebuilt input from to (s ∷ []) h = last_archive input s h.0
Members-Rebuilt input from to (s ∷ t ∷ ss) h =
    next_archive input s h.0 (t ∷ ss) (omega (arith, h.2.1, h.2.0.inside, h.2.0.within))
      (Members-Rebuilt input s.source_end to (t ∷ ss) h.2)
