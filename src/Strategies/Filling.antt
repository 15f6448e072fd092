-- ===== src/Strategies/Filling.antt =====
-- The filling of the last block in strategies/tar_continuation_salvage.rs.
use veraqis_recover.Prelude.{
  ℕ, ◌-◌, ◌*◌, ◌%◌, ◌≡◌, refl, sym, ap, ◌∙◌, ◌++◌, append_assoc, append-nil, Bytes, ◌==◌, ==_iff,
  length, length-append, replicate, arith, Bool-cases, inl, inr,
}
use veraqis_recover.Resync.Tar.{blocks_of}
use veraqis_recover.Strategies.ContinuationSalvage.{fill_block}

-- The filling, written without a test.
pub fill_block_lem :
    (out : Bytes) → fill_block out ≡ out ++ replicate (blocks_of (length out) * 512 - length out) 0
unfolding fill_block
fill_block_lem out = elim (Bool-cases (length out % 512 == 0)) [
  | inr part ↦ simp part refl
  | inl whole ↦ simp whole (
      sym (
        ap (λ (k : ℕ). out ++ replicate k 0) {y = 0}
          (omega (arith, (==_iff (length out % 512) 0).0 whole))
        ∙ append-nil out))
]

-- Whole blocks before are no matter to the filling.
pub fill_block-append :
    (n : ℕ) (front out : Bytes)
    → length front ≡ n * 512
    → fill_block (front ++ out) ≡ front ++ fill_block out
fill_block-append n front out l =
    fill_block_lem (front ++ out)
    ∙ (ap (λ (k : ℕ). (front ++ out) ++ replicate k 0)
          {y = blocks_of (length out) * 512 - length out}
          (omega (arith, l, length-append front out))
        ∙ (append_assoc front out (replicate (blocks_of (length out) * 512 - length out) 0)
            ∙ ap (λ (t : Bytes). front ++ t) (sym (fill_block_lem out))))
