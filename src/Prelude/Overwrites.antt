-- ===== src/Prelude/Overwrites.antt =====
-- A part of a string written over by another of the same length: `copy_from_slice`.
use Prim.Native.Nat.{ℕ, ◌+◌, ◌≤◌}
use mathlib.Core.Path.{◌≡◌, refl, sym, ap, ◌∙◌}
use mathlib.Core.List.{List, ◌++◌}
use native.Mathlib.Omega.{arith}
use veraqis_recover.Prelude.Lists.{
  length, take, drop, slice, All, length-append, length-take, length-drop, All-append, All-take,
  All-drop,
}
use veraqis_recover.Prelude.ByteStrings.{
  drop-drop, take-front, drop-front, slice_at, slice_before, slice_behind,
}

module _ {ℓ} {A : Type ℓ} where
  -- `block[a..b].copy_from_slice(field)`.
  abbrev pub overwrite : ℕ → ℕ → List A → List A → List A
  overwrite a b field block = take a block ++ (field ++ drop b block)

  module _ (a b : ℕ) (field block : List A) (f : a + length field ≡ b) (l : b ≤ length block) where
    pub length-overwrite : length (overwrite a b field block) ≡ length block
    length-overwrite = omega (
      arith,
      f,
      l,
      length-append (take a block) (field ++ drop b block),
      length-append field (drop b block),
      length-take a block,
      length-drop b block,
    )

    pub take-overwrite : take a (overwrite a b field block) ≡ take a block
    take-overwrite =
        take-front (take a block) (field ++ drop b block) {n = a}
          (omega (arith, f, l, length-take a block))

    pub drop-overwrite : drop b (overwrite a b field block) ≡ drop b block
    drop-overwrite =
        ap (λ (n : ℕ). drop n (overwrite a b field block)) {y = a + length field} (sym f)
        ∙ (drop-drop a (length field) (overwrite a b field block)
            ∙ (ap (drop (length field)) (
                  drop-front (take a block) (field ++ drop b block) {n = a}
                    (omega (arith, f, l, length-take a block)))
                ∙ drop-front field (drop b block) {n = length field} refl))

    pub slice-overwrite : slice a b (overwrite a b field block) ≡ field
    slice-overwrite =
        slice_at a b (take a block) field (drop b block) (omega (arith, f, l, length-take a block))
          (omega (arith, f))

    -- What lies before the part, and what lies behind it.
    pub before-overwrite :
        (c d : ℕ) → d ≤ a → slice c d (overwrite a b field block) ≡ slice c d block
    before-overwrite c d h = slice_before a c d (overwrite a b field block) block h take-overwrite

    pub behind-overwrite :
        (c d : ℕ) → b ≤ c → slice c d (overwrite a b field block) ≡ slice c d block
    behind-overwrite c d h = slice_behind b c d (overwrite a b field block) block h drop-overwrite

  pub All-overwrite {κ} :
      (P : A → Type κ) (a b : ℕ) (field block : List A)
      → All P field
      → All P block
      → All P (overwrite a b field block)
  All-overwrite P a b field block h k =
      All-append P (take a block) (field ++ drop b block) (All-take P a block k)
        (All-append P field (drop b block) h (All-drop P b block k))
