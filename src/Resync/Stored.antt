-- ===== src/Resync/Stored.antt =====
-- crates/phx_recovery/src/resync/deflate.rs: the scan for stored DEFLATE blocks.
use veraqis_recover.Prelude.{
  ℕ, zero, suc, ◌+◌, bit_xor, Bool, ◌&&◌, List, [], ◌∷◌, Bytes, from_le_bytes, if◌then◌else◌, ltb,
  leb, ◌==◌, length, slice,
}

pub record StoredBlock : Type 0 where
  pub header_offset : ℕ
  pub len : ℕ
  pub payload : Bytes

abbrev pub min_stored_len : ℕ
min_stored_len = 8

-- `LEN` and `NLEN` of the header at `i`.
unfoldable pub len_at : Bytes → ℕ → ℕ
len_at input i = from_le_bytes (slice i (i + 2) input)

unfoldable pub nlen_at : Bytes → ℕ → ℕ
nlen_at input i = from_le_bytes (slice (i + 2) (i + 4) input)

-- Whether a stored block is taken at `i`; a length of 16 bits does not overflow the sum.
unfoldable pub anchors : Bytes → ℕ → Bool
anchors input i =
    bit_xor (len_at input i) (nlen_at input i) == 0xFFFF
    && (leb min_stored_len (len_at input i) && leb (i + 4 + len_at input i) (length input))

unfoldable pub block_at : Bytes → ℕ → StoredBlock
block_at input i = record {
  header_offset = i;
  len = len_at input i;
  payload = slice (i + 4) (i + 4 + len_at input i) input;
}

-- Where the scan goes on.
unfoldable pub next_at : Bytes → ℕ → ℕ
next_at input i = if anchors input i then i + 4 + len_at input i else i + 1

-- The `while` loop; each round passes a byte at least, so the length is rounds enough.
unfoldable pub scan_loop : ℕ → Bytes → ℕ → List StoredBlock
scan_loop zero input i = []
scan_loop (suc rounds) input i =
    let rest = scan_loop rounds input (next_at input i) in
    if leb (i + 4) (length input)
    then (if anchors input i then block_at input i ∷ rest else rest)
    else []

unfoldable pub scan_stored_blocks : Bytes → List StoredBlock
scan_stored_blocks input =
    if ltb (length input) (4 + min_stored_len) then [] else scan_loop (length input) input 0

-- The sum of the lengths.
unfoldable pub total_len : List StoredBlock → ℕ
total_len [] = 0
total_len (block ∷ blocks) = block.len + total_len blocks

unfoldable pub stored_block_bytes : Bytes → ℕ
stored_block_bytes input = total_len (scan_stored_blocks input)
