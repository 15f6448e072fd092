-- ===== src/Strategies/ResyncPositions.antt =====
-- The header blocks that strategies/tar_size_resync.rs finds.
use veraqis_recover.Prelude.{
  ℕ, zero, suc, ◌+◌, ◌*◌, ◌≤◌, ◌≡◌, Bool, true, false, Bytes, List, [], ◌∷◌, if◌then◌else◌, length,
  slice, arith, Bool-cases, inl, inr,
}
use veraqis_recover.Ustar.{all_zero, is_ustar}
use veraqis_recover.Strategies.SizeResync.{is_ustar_header, headers_from, end_from, next_boundary}
use veraqis_recover.Strategies.ResyncReads.{header_block}

-- Offsets of header blocks of the input, each behind the block of the one before.
unfoldable pub Positions : Bytes → ℕ → List ℕ → Type 0
Positions input from [] = Unit
Positions input from (offset ∷ offsets) =
    (from ≤ offset)
    × (offset + 512 ≤ length input)
    × (is_ustar (header_block input offset) ≡ true)
    × Positions input (offset + 512) offsets

Positions-weaken :
    (input : Bytes) (from later : ℕ) (offsets : List ℕ)
    → from ≤ later
    → Positions input later offsets
    → Positions input from offsets
unfolding Positions
Positions-weaken input from later [] l h = tt
Positions-weaken input from later (o ∷ offsets) l h = (omega (arith, h.0), h.1, h.2, h.3)

guarded : (a b c : Bool) → (if a then false else if b then false else c) ≡ true → c ≡ true
guarded a b c h = ground arith

is_ustar_header-is_ustar : (block : Bytes) → is_ustar_header block ≡ true → is_ustar block ≡ true
unfolding is_ustar_header
is_ustar_header-is_ustar block h = guarded _ (all_zero block) (is_ustar block) h

pub headers_from-Positions :
    (input : Bytes) (i blocks : ℕ)
    → (i + blocks) * 512 ≤ length input
    → Positions input (i * 512) (headers_from input i blocks)
unfolding headers_from Positions header_block
headers_from-Positions input i zero h = tt
headers_from-Positions input i (suc blocks) h =
    let rest = headers_from-Positions input (suc i) blocks (omega (arith, h)) in
    elim (Bool-cases (is_ustar_header (slice (i * 512) (i * 512 + 512) input))) [
      | inl good ↦ simp good (
        omega arith,
        omega (arith, h),
        is_ustar_header-is_ustar _ good,
        Positions-weaken input (i * 512 + 512) (suc i * 512) _ (omega arith) rest,
      )
      | inr other ↦ simp other (Positions-weaken input (i * 512) (suc i * 512) _ (omega arith) rest)
    ]

pub end_from_bound :
    (input : Bytes) (nblocks i pairs : ℕ)
    → i + pairs ≤ nblocks
    → end_from input nblocks i pairs ≤ nblocks * 512
unfolding end_from
end_from_bound input nblocks i zero h = omega arith
end_from_bound input nblocks i (suc pairs) h =
    ground (arith, end_from_bound input nblocks (suc i) pairs (omega (arith, h)))

pub next_boundary_bound :
    (input : Bytes) (eoa from : ℕ) (offsets : List ℕ)
    → eoa ≤ length input
    → Positions input from offsets
    → next_boundary eoa offsets ≤ length input
unfolding next_boundary Positions
next_boundary_bound input eoa from [] h p = h
next_boundary_bound input eoa from (o ∷ offsets) h p = omega (arith, p.1)
