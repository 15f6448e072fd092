-- ===== src/Resync/Terminated.antt =====
-- Streams of items that end in the terminator of crates/phx_recovery/src/resync/build.rs.
use veraqis_recover.Prelude.{
  ◌≡◌, refl, sym, ap, ◌∙◌, some, List, [], ◌∷◌, ◌++◌, append_assoc, Bytes, All, take, replicate,
}
use veraqis_recover.Recovery.Model.{utf8}
use veraqis_recover.Resync.Tar.{read_name, size_of}
use veraqis_recover.Resync.Spans.{
  Item, member, gap, item_onto, stream, is_gap, IsItem, Content, members_of,
}

-- Items put together.
stream-append :
    (items more : List Item) (tail : Bytes)
    → stream (items ++ more) tail ≡ stream items (stream more tail)
unfolding stream
stream-append [] more tail = refl
stream-append (item ∷ items) more tail = ap (item_onto item) (stream-append items more tail)

pub members_of-gaps :
    (items : List Item) (block : Bytes)
    → members_of (items ++ gap block ∷ gap block ∷ []) ≡ members_of items
unfolding members_of
members_of-gaps [] block = refl
members_of-gaps (member header body ∷ items) block =
    ap
      (λ (cs : List Content).
        (some (utf8 (read_name header) ∷ []), take (size_of header) body) ∷ cs)
      (members_of-gaps items block)
members_of-gaps (gap other ∷ items) block = members_of-gaps items block

stream_tail : (items : List Item) (tail : Bytes) → stream items [] ++ tail ≡ stream items tail
unfolding stream item_onto
stream_tail [] tail = refl
stream_tail (member header body ∷ items) tail =
    append_assoc header (body ++ stream items []) tail
    ∙ ap (λ (t : Bytes). header ++ t)
        (append_assoc body (stream items []) tail
          ∙ ap (λ (t : Bytes). body ++ t) (stream_tail items tail))
stream_tail (gap block ∷ items) tail =
    append_assoc block (stream items []) tail
    ∙ ap (λ (t : Bytes). block ++ t) (stream_tail items tail)

abbrev pub two_gaps : List Item
two_gaps = gap (replicate 512 0) ∷ gap (replicate 512 0) ∷ []

pub two_gaps_good : All IsItem two_gaps
unfolding IsItem is_gap
two_gaps_good = ((refl, refl), ((refl, refl), tt))

terminator_stream : replicate 1024 0 ≡ stream two_gaps []
unfolding stream item_onto
terminator_stream = refl

pub with_terminator :
    (items : List Item) → stream items [] ++ replicate 1024 0 ≡ stream (items ++ two_gaps) []
with_terminator items =
    stream_tail items (replicate 1024 0)
    ∙ (ap (stream items) terminator_stream ∙ sym (stream-append items two_gaps []))
