-- ===== src/Ustar/Magic.antt =====
-- The blocks that crates/phx_recovery tells apart by their magic.
use veraqis_recover.Prelude.{
  ℕ, zero, suc, ◌≡◌, refl, true, false, [], ◌∷◌, Bytes, bytes_eq, take, drop, slice, arith,
  Bool-cases, inl, inr,
}
use veraqis_recover.Ustar.{all_zero, is_ustar}

pub all_zero-drop : (n : ℕ) (bs : Bytes) → all_zero bs ≡ true → all_zero (drop n bs) ≡ true
all_zero-drop zero bs h = h
all_zero-drop (suc n) [] h = refl
all_zero-drop (suc n) (b ∷ bs) h = all_zero-drop n bs (ground arith)

pub all_zero-take : (n : ℕ) (bs : Bytes) → all_zero bs ≡ true → all_zero (take n bs) ≡ true
all_zero-take zero bs h = refl
all_zero-take (suc n) [] h = refl
all_zero-take (suc n) (b ∷ bs) h = ground (arith, all_zero-take n bs)

zeros_differ :
    (bs : Bytes) → all_zero bs ≡ true → bytes_eq bs (b'u' ∷ b's' ∷ b't' ∷ b'a' ∷ b'r' ∷ []) ≡ false
zeros_differ [] h = refl
zeros_differ (b ∷ bs) h = ground arith

pub all_zero-is_ustar : (bs : Bytes) → all_zero bs ≡ true → is_ustar bs ≡ false
all_zero-is_ustar bs h =
    zeros_differ (slice 257 262 bs) (all_zero-take 5 (drop 257 bs) (all_zero-drop 257 bs h))

pub is_ustar-all_zero : (bs : Bytes) → is_ustar bs ≡ true → all_zero bs ≡ false
is_ustar-all_zero bs h = elim (Bool-cases (all_zero bs)) [
  | inl zeros ↦ ground (arith, h, all_zero-is_ustar bs zeros)
  | inr more ↦ more
]
