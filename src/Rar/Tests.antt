-- ===== src/Rar/Tests.antt =====
-- A small archive, of one stored file and the end-of-archive block, and runs of the parser on it.
use veraqis_recover.Prelude.{
  ℕ, ◌+◌, ◌*◌, ◌^◌, ◌≤◌, ◌<◌, ◌≡◌, ◌↔◌, refl, true, false, [], ◌∷◌, ◌++◌, some, none, length, Bytes,
  to_le_bytes, All, arith,
}
use veraqis_recover.Prelude.Utf8.{from_utf8_lossy}
use veraqis_recover.Crc.{crc32}
use veraqis_recover.Rar.Defs.{
  signature5, FileEntry, Inventory, empty_inventory, extract_stored, vint, parse_file_header, u32le,
  optional_u32, checked_add,
}
use veraqis_recover.Rar.Walk.{
  read_inventory, walk, walk_round, read_header, read_fields, conclude, note_block, note_verified,
  guard_limit,
}
use veraqis_recover.Rar.Vint.{put_vint, vint_bounds, vint-put_vint}
use veraqis_recover.Rar.Proven.{IsProven, IsCorrupt, read_inventory-IsProven}
use veraqis_recover.Rar.Guard.{walk_guard}
use veraqis_recover.Rar.Stored.{IsStored, extract_stored_iff, extract_stored_detects}

abbrev hello : Bytes
hello = b'h' ∷ b'e' ∷ b'l' ∷ b'l' ∷ b'o' ∷ []

-- A block: CRC-32, header size, header body, data.
block : Bytes → Bytes → Bytes
unfolding crc32
block body payload =
    let header = length body ∷ body in to_le_bytes 4 (crc32 header) ++ (header ++ payload)

hello_crc : ℕ
unfolding crc32
hello_crc = crc32 hello

file_body : Bytes
unfolding hello_crc
file_body =
    2 ∷ 2 ∷ 5 ∷ 4 ∷ 5 ∷ 0 ∷ [] ++ (to_le_bytes 4 hello_crc ++ (0 ∷ 0 ∷ 2 ∷ b'h' ∷ b'i' ∷ []))

archive : Bytes
unfolding block file_body
archive = signature5 ++ (block file_body hello ++ block (5 ∷ 0 ∷ 0 ∷ []) [])

hello_entry : FileEntry
unfolding hello_crc
hello_entry = record {
  name = b'h' ∷ b'i' ∷ [];
  is_dir = false;
  size = some 5;
  crc = some hello_crc;
  header_crc_ok = true;
  method = 0;
  data_offset = 28;
  packed_size = 5;
}

inventory : Inventory
unfolding hello_entry
inventory = record empty_inventory { files = hello_entry ∷ []; has_end = true }

archive-inventory : read_inventory archive ≡ some inventory
unfolding read_inventory archive walk walk_round read_header read_fields conclude note_block
    note_verified vint parse_file_header u32le optional_u32 checked_add from_utf8_lossy crc32
    inventory
archive-inventory = refl

read_inventory-IsProven_example :
    All (IsProven archive) inventory.files × All (IsCorrupt archive) inventory.corrupt_blocks
read_inventory-IsProven_example = read_inventory-IsProven archive inventory archive-inventory

archive_short : length archive < 8 + 5 * 100 + 5
unfolding archive block file_body hello_crc crc32
archive_short = omega arith

walk_guard_example : walk 100 archive empty_inventory 8 ≡ walk guard_limit archive empty_inventory 8
walk_guard_example =
    walk_guard 100 guard_limit archive empty_inventory 8 (omega arith) archive_short

extract_stored_iff_example :
    (extract_stored archive hello_entry ≡ some hello) ↔ IsStored archive hello_entry hello
extract_stored_iff_example = extract_stored_iff archive hello_entry hello

-- 300, in two bytes, behind one other byte.
read_300 : vint (7 ∷ 172 ∷ 2 ∷ []) 1 ≡ some (300, 3)
unfolding vint
read_300 = refl

vint_bounds_example : (1 < 3) × (3 ≤ 3) × (3 ≤ 1 + 10) × (300 < 2 ^ 64)
vint_bounds_example = vint_bounds (7 ∷ 172 ∷ 2 ∷ []) 1 300 3 read_300

vint-put_vint_example :
    vint ((7 ∷ []) ++ (put_vint 300 ++ (9 ∷ []))) (length {A = ℕ} (7 ∷ []))
    ≡ some (300, 1 + length (put_vint 300))
vint-put_vint_example = vint-put_vint (7 ∷ []) (9 ∷ []) 300 (omega arith)

-- An entry whose data lies at the start.
bare_entry : FileEntry
unfolding hello_crc
bare_entry = record hello_entry { data_offset = 0 }

bare_stored :
    extract_stored ([] ++ (([] ++ (b'h' ∷ b'e' ∷ b'l' ∷ b'l' ∷ b'o' ∷ [])) ++ [])) bare_entry
    ≡ some hello
unfolding extract_stored bare_entry hello_entry hello_crc checked_add crc32
bare_stored = refl

bare_offset : bare_entry.data_offset ≡ 0
unfolding bare_entry
bare_offset = refl

extract_stored_detects_example :
    extract_stored ([] ++ (([] ++ (b'j' ∷ b'e' ∷ b'l' ∷ b'l' ∷ b'o' ∷ [])) ++ [])) bare_entry ≡ none
extract_stored_detects_example =
    extract_stored_detects [] [] (b'e' ∷ b'l' ∷ b'l' ∷ b'o' ∷ []) [] b'h' b'j' bare_entry
      (omega arith, (omega arith, (omega arith, (omega arith, (omega arith, tt))))) (omega arith)
      (omega arith) bare_offset bare_stored
