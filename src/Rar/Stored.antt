-- ===== src/Rar/Stored.antt =====
-- `extract_stored` of crates/phx_recovery/src/rar/mod.rs, against the per-file CRC-32.
use veraqis_recover.Prelude.{
  ℕ, ◌+◌, ◌^◌, ◌≤◌, ◌<◌, ◌≡◌, ◌≢◌, ◌↔◌, sym, ap, ◌∙◌, false, ◌∷◌, ◌++◌, none, some, length, slice,
  arith, Bytes, All, IsByte, inl, inr, Option-cases, some_inj, length-slice, slice_middle,
  length-append,
}
use mathlib.Core.Path.{ap₂}
use veraqis_recover.Crc.{crc32}
use veraqis_recover.Crc.Detect.{crc32-ne}
use veraqis_recover.Rar.Defs.{FileEntry, extract_stored}

-- The bytes are a stored file's: the entry's data area, of its size, under its CRC-32.
pub record IsStored (file : Bytes) (e : FileEntry) (out : Bytes) : Type 0 where
  pub not_dir : e.is_dir ≡ false
  pub uncompressed : e.method ≡ 0
  pub sized : e.size ≡ some e.packed_size
  pub fits : e.data_offset + e.packed_size < 2 ^ 64
  pub present : e.data_offset + e.packed_size ≤ length file
  pub out_is : out ≡ slice e.data_offset (e.data_offset + e.packed_size) file
  pub crc_is : e.crc ≡ some (crc32 out)

-- `extract_stored` returns bytes exactly where the entry is a stored file whose data area lies
-- within the file and has the entry's CRC-32, and then it returns that data area.
pub extract_stored_iff :
    (file : Bytes) (e : FileEntry) (out : Bytes)
    → (extract_stored file e ≡ some out) ↔ IsStored file e out
unfolding extract_stored
extract_stored_iff file e out = (λ h. ground arith, λ s. ground arith)

-- Overwrite one byte of a stored file's data: `extract_stored`, which gave the data back, now
-- returns nothing.
pub extract_stored_detects :
    (head pre post tail : Bytes) (a b : ℕ) (e : FileEntry)
    → All IsByte (pre ++ a ∷ post)
    → b < 256
    → a ≢ b
    → e.data_offset ≡ length head
    → extract_stored (head ++ ((pre ++ a ∷ post) ++ tail)) e ≡ some (pre ++ a ∷ post)
    → extract_stored (head ++ ((pre ++ b ∷ post) ++ tail)) e ≡ none
extract_stored_detects head pre post tail a b e bytes hb ne at h =
    elim (Option-cases (extract_stored (head ++ ((pre ++ b ∷ post) ++ tail)) e)) [
      | inl nothing ↦ nothing
      | inr (out, found) ↦ absurd (clash out found)
    ]
  where
    before : IsStored (head ++ ((pre ++ a ∷ post) ++ tail)) e (pre ++ a ∷ post)
    before = (extract_stored_iff _ e _).0 h

    clash : (out : Bytes) → extract_stored (head ++ ((pre ++ b ∷ post) ++ tail)) e ≡ some out → ⊥
    clash out found =
        let after = (extract_stored_iff _ e out).0 found in
        crc32-ne pre post a b bytes hb ne
          (some_inj (sym before.crc_is ∙ after.crc_is) ∙ ap crc32 (after.out_is ∙ cut))
      where
        sized : length (pre ++ a ∷ post) ≡ e.packed_size
        sized = omega (
          arith,
          ap (λ (t : Bytes). length t) before.out_is,
          length-slice e.data_offset (e.data_offset + e.packed_size)
              (head ++ ((pre ++ a ∷ post) ++ tail)) (omega arith) before.present,
        )

        cut :
            slice e.data_offset
              (e.data_offset + e.packed_size)
              (head ++ ((pre ++ b ∷ post) ++ tail))
            ≡ pre ++ b ∷ post
        cut =
            ap₂ (λ (x y : ℕ). slice x y (head ++ ((pre ++ b ∷ post) ++ tail))) {y = length head}
              {v = length head + length (pre ++ b ∷ post)} at
              (omega (arith, at, sized, length-append pre (a ∷ post), length-append pre (b ∷ post)))
            ∙ slice_middle head (pre ++ b ∷ post) tail
