-- ===== src/Rar/Defs.antt =====
-- The parser of RAR5 blocks and the extraction of stored files. A cursor `&mut usize` is passed in
-- and out; `none` is the source's `None`, which `?` hands on to the caller.
use veraqis_recover.Prelude.{
  ℕ, ◌+◌, ◌*◌, ◌/◌, ◌%◌, ◌^◌, bit_and, bit_or, Bool, true, false, not, ◌||◌, List, [], ◌∷◌, Option,
  none, some, ltb, leb, ◌==◌, if◌then◌else◌, drop, get_slice?, Bytes, from_le_bytes,
}
use veraqis_recover.Prelude.Utf8.{from_utf8_lossy}
use veraqis_recover.Prelude.Options.{◌>>=◌}
use veraqis_recover.Crc.{crc32}

abbrev pub signature5 : Bytes
signature5 = 0x52 ∷ 0x61 ∷ 0x72 ∷ 0x21 ∷ 0x1A ∷ 0x07 ∷ 0x01 ∷ 0x00 ∷ []

abbrev pub t_main : ℕ
t_main = 1

abbrev pub t_file : ℕ
t_file = 2

abbrev pub t_service : ℕ
t_service = 3

abbrev pub t_endarc : ℕ
t_endarc = 5

abbrev pub arc_volume : ℕ
arc_volume = 1

abbrev pub arc_recovery_record : ℕ
arc_recovery_record = 8

-- A name is kept as the UTF-8 bytes of its `String`.
pub record FileEntry : Type 0 where
  pub name : Bytes
  pub is_dir : Bool
  pub size : Option ℕ
  pub crc : Option ℕ
  pub header_crc_ok : Bool
  pub method : ℕ
  pub data_offset : ℕ
  pub packed_size : ℕ

pub record Inventory : Type 0 where
  pub files : List FileEntry
  pub corrupt_blocks : List ℕ
  pub has_end : Bool
  pub truncated : Bool
  pub has_recovery_record : Bool
  pub is_volume : Bool

abbrev pub empty_inventory : Inventory
empty_inventory = record {
  files = [];
  corrupt_blocks = [];
  has_end = false;
  truncated = false;
  has_recovery_record = false;
  is_volume = false;
}

-- Whether `value & bit != 0`.
abbrev pub has_flag : ℕ → ℕ → Bool
has_flag value bit = not (bit_and value bit == 0)

-- The loop of `vint`, on the bytes from the cursor on.
unfoldable pub vint_loop : Bytes → ℕ → ℕ → ℕ → Option (ℕ × ℕ)
vint_loop [] p shift val = none
vint_loop (b ∷ bs) p shift val =
    let val' = bit_or val (bit_and b 0x7F * 2 ^ shift % 2 ^ 64) in
    let rest = vint_loop bs (p + 1) (shift + 7) val' in
    if bit_and b 0x80 == 0 then some (val', p + 1) else if leb 64 (shift + 7) then none else rest

-- The value read, and the cursor behind it.
unfoldable pub vint : Bytes → ℕ → Option (ℕ × ℕ)
unfolding vint_loop
vint d p = vint_loop (drop p d) p 0 0

unfoldable pub checked_add : ℕ → ℕ → Option ℕ
checked_add a b = if ltb (a + b) (2 ^ 64) then some (a + b) else none

unfoldable pub u32le : Bytes → ℕ → Option (ℕ × ℕ)
unfolding checked_add
u32le d p = do stop ← checked_add p 4; s ← get_slice? p stop d; some (from_le_bytes s, p + 4)

-- `if file_flags & 0x04 != 0 { Some(u32le(d, p)?) } else { None }`, and the same for the skipped
-- modification time.
unfoldable pub optional_u32 : Bool → Bytes → ℕ → Option (Option ℕ × ℕ)
optional_u32 false d p = some (none, p)
optional_u32 true d p = do (v, p) ← u32le d p; some (some v, p)

unfoldable pub parse_file_header : Bytes → ℕ → ℕ → Option (FileEntry × ℕ)
unfolding optional_u32
parse_file_header d p end = do
  (file_flags, p) ← vint d p
  (unpacked_size, p) ← vint d p
  (_, p) ← vint d p
  (_, p) ← optional_u32 (has_flag file_flags 0x02) d p
  (crc, p) ← optional_u32 (has_flag file_flags 0x04) d p
  (comp_info, p) ← vint d p
  (_, p) ← vint d p
  (name_len, p) ← vint d p
  stop ← checked_add p name_len
  name ← if ltb end stop then none else get_slice? p stop d
  let is_dir = has_flag file_flags 0x01
  some (
    record {
      name = from_utf8_lossy name;
      is_dir = is_dir;
      size = if is_dir then none else some unpacked_size;
      crc = if is_dir then none else crc;
      header_crc_ok = true;
      method = bit_and (comp_info / 2 ^ 7) 0x07;
      data_offset = 0;
      packed_size = 0;
    },
    p,
  )

unfoldable pub extract_stored : Bytes → FileEntry → Option Bytes
unfolding checked_add
extract_stored file e = if e.is_dir || not (e.method == 0) then none else do
  size ← e.size
  if not (e.packed_size == size) then none else do
    crc ← e.crc
    stop ← checked_add e.data_offset size
    bytes ← get_slice? e.data_offset stop file
    if not (crc32 bytes == crc) then none else some bytes
