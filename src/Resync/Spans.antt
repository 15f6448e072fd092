-- ===== src/Resync/Spans.antt =====
-- Streams of members and of blocks that are none, as crates/phx_recovery/src/resync/tar.rs reads them.
use veraqis_recover.Prelude.{
  ◌*◌, ◌≡◌, refl, Bool, true, not, ◌||◌, Option, some, List, [], ◌∷◌, ◌++◌, map, append_assoc,
  Bytes, length, take,
}
use veraqis_recover.Recovery.Model.{Message, utf8}
use veraqis_recover.Ustar.{all_zero, is_ustar}
use veraqis_recover.Resync.{Segment, SalvageResult}
use veraqis_recover.Resync.Tar.{read_name, checksum_ok, size_of, blocks_of}

-- A piece of a stream: a header block with its padded data, or a block that is no header.
pub data Item : Type 0 where
  member : Bytes → Bytes → Item
  gap : Bytes → Item

unfoldable pub item_bytes : Item → Bytes
item_bytes (member block body) = block ++ body
item_bytes (gap block) = block

-- The item's bytes before others.
unfoldable pub item_onto : Item → Bytes → Bytes
item_onto (member block body) rest = block ++ (body ++ rest)
item_onto (gap block) rest = block ++ rest

unfoldable pub stream : List Item → Bytes → Bytes
stream [] tail = tail
stream (item ∷ items) tail = item_onto item (stream items tail)

pub item_bytes_append : (item : Item) (rest : Bytes) → item_bytes item ++ rest ≡ item_onto item rest
unfolding item_bytes item_onto
item_bytes_append (member block body) rest = append_assoc block body rest
item_bytes_append (gap block) rest = refl

-- A header that the walk trusts, with as many whole blocks of data as it declares.
pub record IsWhole (block body : Bytes) : Type 0 where
  pub sized : length block ≡ 512
  pub magic : is_ustar block ≡ true
  pub own : checksum_ok block ≡ true
  pub padded : length body ≡ blocks_of (size_of block) * 512

-- A block of zeros, without the ustar magic or with another checksum than its own.
unfoldable pub is_gap : Bytes → Bool
is_gap block = all_zero block || (not (is_ustar block) || not (checksum_ok block))

unfoldable pub IsItem : Item → Type 0
IsItem (member block body) = IsWhole block body
IsItem (gap block) = (length block ≡ 512) × (is_gap block ≡ true)

abbrev pub Content : Type 0
Content = Option Message × Bytes

-- The name and the bytes of a segment.
unfoldable pub content : Segment → Content
content s = (s.name, s.bytes)

unfoldable pub contents_of : SalvageResult → List Content
unfolding content
contents_of result = map content result.segments

-- What the members of a stream hold.
unfoldable pub members_of : List Item → List Content
members_of [] = []
members_of (member block body ∷ items) =
    (some (utf8 (read_name block) ∷ []), take (size_of block) body) ∷ members_of items
members_of (gap block ∷ items) = members_of items
