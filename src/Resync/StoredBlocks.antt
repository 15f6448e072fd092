-- ===== src/Resync/StoredBlocks.antt =====
-- The blocks that the scan of crates/phx_recovery/src/resync/deflate.rs takes.
use veraqis_recover.Prelude.{
  ℕ, zero, suc, ◌+◌, ◌≤◌, ◌≡◌, refl, bit_xor, true, List, [], ◌∷◌, Bytes, ltb, leb, length, slice,
  arith, Bool-cases, inl, inr,
}
use veraqis_recover.Resync.Stored.{
  StoredBlock, min_stored_len, len_at, nlen_at, anchors, block_at, next_at, scan_loop,
  scan_stored_blocks, total_len, stored_block_bytes,
}

-- A stored block of the input: its header's two lengths are complements, and the payload of at least
-- eight bytes stands behind it, within the input.
pub record IsStored (input : Bytes) (b : StoredBlock) : Type 0 where
  pub declared : b.len ≡ len_at input b.header_offset
  pub complement : bit_xor b.len (nlen_at input b.header_offset) ≡ 0xFFFF
  pub long : min_stored_len ≤ b.len
  pub verbatim : b.payload ≡ slice (b.header_offset + 4) (b.header_offset + 4 + b.len) input
  pub within : b.header_offset + 4 + b.len ≤ length input

-- Stored blocks of the input, each behind the one before, from a position on.
unfoldable pub StoredFrom : Bytes → ℕ → List StoredBlock → Type 0
StoredFrom input from [] = Unit
StoredFrom input from (b ∷ blocks) =
    IsStored input b
    × (from ≤ b.header_offset)
    × StoredFrom input (b.header_offset + 4 + b.len) blocks

StoredFrom-weaken :
    (input : Bytes) (from later : ℕ) (blocks : List StoredBlock)
    → from ≤ later
    → StoredFrom input later blocks
    → StoredFrom input from blocks
unfolding StoredFrom
StoredFrom-weaken input from later [] l h = tt
StoredFrom-weaken input from later (b ∷ blocks) l h = (h.0, omega (arith, h.1), h.2)

anchored : (input : Bytes) (i : ℕ) → anchors input i ≡ true → IsStored input (block_at input i)
unfolding anchors block_at
anchored input i h = record {
  declared = refl;
  complement = ground (arith, h);
  long = ground (arith, h);
  verbatim = refl;
  within = ground (arith, h);
}

scan_loop-StoredFrom :
    (rounds : ℕ) (input : Bytes) (i : ℕ) → StoredFrom input i (scan_loop rounds input i)
unfolding scan_loop next_at StoredFrom block_at
scan_loop-StoredFrom zero input i = tt
scan_loop-StoredFrom (suc rounds) input i = elim (Bool-cases (leb (i + 4) (length input))) [
  | inr done ↦ simp done tt
  | inl more ↦ elim (Bool-cases (anchors input i)) [
    | inl hit ↦
        simp (more, hit)
          (
            anchored input i hit,
            omega arith,
            scan_loop-StoredFrom rounds input (i + 4 + len_at input i),
          )
    | inr miss ↦
        simp (more, miss)
          (StoredFrom-weaken input i (i + 1) _ (omega arith)
            (scan_loop-StoredFrom rounds input (i + 1)))
  ]
]

-- The scan takes stored blocks of the input, in order and apart: each has a header whose lengths are
-- complements, is at least eight bytes long, and gives the payload within the input verbatim.
pub scan_stored_blocks_sound : (input : Bytes) → StoredFrom input 0 (scan_stored_blocks input)
unfolding scan_stored_blocks StoredFrom
scan_stored_blocks_sound input = elim (Bool-cases (ltb (length input) (4 + min_stored_len))) [
  | inl short ↦ simp short tt
  | inr long ↦ simp long (scan_loop-StoredFrom (length input) input 0)
]

total_len_bound :
    (input : Bytes) (from : ℕ) (blocks : List StoredBlock)
    → from ≤ length input
    → StoredFrom input from blocks
    → from + total_len blocks ≤ length input
unfolding total_len StoredFrom
total_len_bound input from [] l h = omega arith
total_len_bound input from (b ∷ blocks) l h =
    omega (arith, h.1, total_len_bound input (b.header_offset + 4 + b.len) blocks h.0.within h.2)

-- The stored blocks of an input have no more bytes than the input.
pub stored_block_bytes_bound : (input : Bytes) → stored_block_bytes input ≤ length input
unfolding stored_block_bytes
stored_block_bytes_bound input = omega (
  arith,
  total_len_bound input 0 (scan_stored_blocks input) (omega arith) (scan_stored_blocks_sound input),
)
