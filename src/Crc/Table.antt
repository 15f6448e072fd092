-- ===== src/Crc/Table.antt =====
-- crates/phx_analyze_engine/src/integrity/crc32.rs: the CRC-32 by a table, and the same by bits.
use veraqis_recover.Prelude.{
  ℕ, zero, suc, ◌/◌, bit_and, bit_xor, List, [], ◌∷◌, Bytes, if◌then◌else◌, ◌==◌,
}

pub record Crc32 : Type 0 where
  pub state : ℕ

unfoldable pub Crc32_new : Crc32
Crc32_new = record { state = 0xFFFFFFFF }

-- The body of the inner `while` loop of `build_table`.
unfoldable pub table_bit : ℕ → ℕ
table_bit crc = if bit_and crc 1 == 1 then bit_xor (crc / 2) 0xEDB88320 else crc / 2

-- The inner loop, of `n` rounds.
unfoldable pub table_bits : ℕ → ℕ → ℕ
table_bits zero crc = crc
table_bits (suc n) crc = table_bits n (table_bit crc)

-- The entries of `n` indices from `i` on.
unfoldable pub table_from : ℕ → ℕ → List ℕ
table_from i zero = []
table_from i (suc n) = table_bits 8 i ∷ table_from (suc i) n

unfoldable pub build_table : List ℕ
build_table = table_from 0 256

-- `TABLE[idx]`, for an index that the table has.
unfoldable pub table_at : List ℕ → ℕ → ℕ
table_at [] idx = 0
table_at (entry ∷ entries) zero = entry
table_at (entry ∷ entries) (suc idx) = table_at entries idx

-- The body of the `for` loop of `update`.
unfoldable pub table_step : ℕ → ℕ → ℕ
table_step crc b = bit_xor (crc / 256) (table_at build_table (bit_and (bit_xor crc b) 0xFF))

unfoldable pub update_loop : ℕ → Bytes → ℕ
update_loop crc [] = crc
update_loop crc (b ∷ bytes) = update_loop (table_step crc b) bytes

unfoldable pub update : Bytes → Crc32 → Crc32
update bytes crc = record { state = update_loop crc.state bytes }

unfoldable pub finalize : Crc32 → ℕ
finalize crc = bit_xor crc.state 0xFFFFFFFF

unfoldable pub table_crc32 : Bytes → ℕ
table_crc32 bytes = finalize (update bytes Crc32_new)
