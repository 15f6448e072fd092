-- ===== src/Rar/Walk.antt =====
-- `read_inventory`: the walk over the block chain. The loop's guard, a million rounds, is the fuel:
-- where the source breaks at the guard, the fuel has run out.
use veraqis_recover.Prelude.{
  ℕ, zero, suc, ◌+◌, Bool, true, false, not, ◌&&◌, ◌||◌, List, [], ◌∷◌, ◌++◌, Option, none, some,
  ltb, ◌==◌, if◌then◌else◌, length, take, slice, Bytes, bytes_eq,
}
use veraqis_recover.Prelude.Options.{◌>>=◌}
use veraqis_recover.Crc.{crc32}
use veraqis_recover.Rar.Defs.{
  signature5, t_main, t_file, t_service, t_endarc, arc_volume, arc_recovery_record, FileEntry,
  Inventory, empty_inventory, has_flag, vint, checked_add, u32le, parse_file_header,
}

-- A vint that is there only under a flag; otherwise 0.
unfoldable pub optional_vint : Bool → Bytes → ℕ → Option (ℕ × ℕ)
optional_vint false d p = some (0, p)
optional_vint true d p = vint d p

-- The header of the block at a cursor: where its CRC-covered bytes start and end, and its fields.
pub record Header : Type 0 where
  pub hs_start : ℕ
  pub body_end : ℕ
  pub crc_ok : Bool
  pub htype : ℕ
  pub data_size : ℕ
  -- the cursor behind the fields
  pub b : ℕ

pub data HeaderAt : Type 0 where
  past_eof : HeaderAt
  header : Header → HeaderAt

-- The fields of a header that lies within the file.
unfoldable pub read_fields : Bytes → ℕ → ℕ → ℕ → ℕ → Option HeaderAt
unfolding optional_vint
read_fields file crc hs_start body_start body_end = do
  let crc_ok = crc32 (slice hs_start body_end file) == crc
  (htype, b) ← vint file body_start
  (flags, b) ← vint file b
  (_, b) ← optional_vint (has_flag flags 0x01) file b
  (data_size, b) ← optional_vint (has_flag flags 0x02) file b
  some (
      header (record {
        hs_start = hs_start;
        body_end = body_end;
        crc_ok = crc_ok;
        htype = htype;
        data_size = data_size;
        b = b;
      }))

unfoldable pub within_file : Bytes → ℕ → ℕ → ℕ → Option ℕ → Option HeaderAt
within_file file crc hs_start body_start none = some past_eof
within_file file crc hs_start body_start (some body_end) =
    if ltb (length file) body_end
    then some past_eof
    else read_fields file crc hs_start body_start body_end

-- The first half of a round, at the cursor.
unfoldable pub read_header : Bytes → ℕ → Option HeaderAt
unfolding within_file
read_header file p = do
  (crc, q) ← u32le file p
  (header_size, body_start) ← vint file q
  within_file file crc q body_start (checked_add body_start header_size)

-- The main archive header's flags, if they can be read.
unfoldable pub note_main : Inventory → Option (ℕ × ℕ) → Inventory
note_main inv none = inv
note_main inv (some (arc_flags, _)) = record inv {
  has_recovery_record = inv.has_recovery_record || has_flag arc_flags arc_recovery_record;
  is_volume = inv.is_volume || has_flag arc_flags arc_volume;
}

unfoldable pub note_file : Inventory → Header → Option (FileEntry × ℕ) → Inventory
note_file inv h none = inv
note_file inv h (some (e, _)) = record inv {
  files = inv.files ++ record e { data_offset = h.body_end; packed_size = h.data_size } ∷ [];
}

-- The recovery record is a service block named "RR".
unfoldable pub note_service : Inventory → Option (FileEntry × ℕ) → Inventory
note_service inv none = inv
note_service inv (some (e, _)) =
    if bytes_eq e.name (b'R' ∷ b'R' ∷ []) then record inv { has_recovery_record = true } else inv

-- What a verified header adds to the inventory.
unfoldable pub note_verified : Bytes → Inventory → Header → Inventory
unfolding note_main note_file note_service
note_verified file inv h =
    if h.htype == t_main
    then note_main inv (vint file h.b)
    else if h.htype == t_file
    then note_file inv h (parse_file_header file h.b h.body_end)
    else if h.htype == t_service
    then note_service inv (parse_file_header file h.b h.body_end)
    else if h.htype == t_endarc
    then record inv { has_end = true }
    else inv

unfoldable pub note_block : Bytes → Inventory → ℕ → Header → Inventory
note_block file inv block_start h =
    if h.crc_ok
    then note_verified file inv h
    else record inv { corrupt_blocks = inv.corrupt_blocks ++ block_start ∷ [] }

pub data Round : Type 0 where
  stop : Inventory → Round
  next : Inventory → ℕ → Round

-- The end of a round: over the data area to the next block.
unfoldable pub to_next : Bytes → Inventory → Header → Option ℕ → Round
to_next file inv h none = stop (record inv { truncated = true })
to_next file inv h (some p) =
    if ltb (length file) p
    then stop (record inv { truncated = true })
    else if h.crc_ok && h.htype == t_endarc
    then stop inv
    else next inv p

unfoldable pub after_header : Bytes → Inventory → ℕ → HeaderAt → Round
after_header file inv p past_eof = stop (record inv { truncated = true })
after_header file inv p (header h) =
    to_next file (note_block file inv p h) h (checked_add h.body_end h.data_size)

-- One round of the loop.
unfoldable pub walk_round : Bytes → Inventory → ℕ → Option Round
unfolding after_header to_next
walk_round file inv p = do at ← read_header file p; some (after_header file inv p at)

unfoldable pub walk_on : (Inventory → ℕ → Option Inventory) → Option Round → Option Inventory
walk_on again none = none
walk_on again (some (stop inv)) = some inv
walk_on again (some (next inv p)) = again inv p

-- The loop, from a cursor on.
unfoldable pub walk : ℕ → Bytes → Inventory → ℕ → Option Inventory
unfolding walk_on
walk zero file inv p = some inv
walk (suc guard) file inv p =
    if ltb (length file) (p + 5)
    then some inv
    else walk_on (λ inv' p'. walk guard file inv' p') (walk_round file inv p)

unfoldable pub is_empty : List ℕ → Bool
is_empty [] = true
is_empty (x ∷ xs) = false

-- The check behind the loop.
unfoldable pub conclude : Inventory → Inventory
unfolding is_empty
conclude inv =
    if not inv.has_end && is_empty inv.corrupt_blocks then record inv { truncated = true } else inv

abbrev pub guard_limit : ℕ
guard_limit = 1_000_000

unfoldable pub read_inventory : Bytes → Option Inventory
read_inventory file =
    if ltb (length file) 8 || not (bytes_eq (take 8 file) signature5)
    then none
    else do inv ← walk guard_limit file empty_inventory 8; some (conclude inv)
