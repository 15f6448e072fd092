-- ===== src/Strategies/Terminator.antt =====
-- What the terminator's repair of strategies/tar_repair.rs leaves.
use veraqis_recover.Prelude.{
  Bool, ◌&&◌, ◌≤◌, sym, leb, leb→le, ℕ, ◌-◌, ◌≡◌, refl, ap, ◌∙◌, true, false, [], ◌∷◌, ◌++◌, Bytes,
  le→leb, length, take, drop, length-append, length-replicate, replicate, take-append-drop,
  length-drop, take-length_append, drop-length_append, arith, Bool-cases, inl, inr,
}
use veraqis_recover.Ustar.{all_zero}
use veraqis_recover.Strategies.TarRepair.{terminator, already_terminated, terminate}

take_whole : (bytes : Bytes) → take (length bytes) bytes ≡ bytes
take_whole [] = refl
take_whole (b ∷ bs) = ap (λ (t : Bytes). b ∷ t) (take_whole bs)

-- Behind any bytes, 1024 zeros end the archive.
appended_terminated :
    (bytes zeros : Bytes)
    → length zeros ≡ 1024
    → all_zero zeros ≡ true
    → already_terminated (bytes ++ zeros) ≡ true
unfolding already_terminated
appended_terminated bytes zeros l z =
    rw (le→leb 1024 (length (bytes ++ zeros)) (omega (arith, length-append bytes zeros, l))) (
      ap (λ (n : ℕ). all_zero (drop n (bytes ++ zeros))) {x = length (bytes ++ zeros) - 1024}
        {y = length bytes} (omega (arith, length-append bytes zeros, l))
      ∙ (ap all_zero (drop-length_append bytes zeros) ∙ z))

terminate_open :
    (bytes : Bytes) → already_terminated bytes ≡ false → terminate bytes ≡ bytes ++ terminator
unfolding terminate
terminate_open bytes e = rw e refl

terminate_closed : (bytes : Bytes) → already_terminated bytes ≡ true → terminate bytes ≡ bytes
unfolding terminate
terminate_closed bytes e = rw e refl

terminate-already_terminated : (bytes : Bytes) → already_terminated (terminate bytes) ≡ true
terminate-already_terminated bytes = elim (Bool-cases (already_terminated bytes)) [
  | inl fine ↦ ap already_terminated (terminate_closed bytes fine) ∙ fine
  | inr missing ↦
      ap already_terminated (terminate_open bytes missing)
      ∙ appended_terminated bytes terminator (length-replicate {A = ℕ} 1024 0) refl
]

pub all_zero-replicate :
    (bytes : Bytes) → all_zero bytes ≡ true → bytes ≡ replicate (length bytes) 0
all_zero-replicate [] h = refl
all_zero-replicate (b ∷ bytes) h = grind (arith, all_zero-replicate bytes)

zeros_behind :
    (n : ℕ) (bytes : Bytes)
    → n ≤ length bytes
    → all_zero (drop (length bytes - n) bytes) ≡ true
    → bytes ≡ take (length bytes - n) bytes ++ replicate n 0
zeros_behind n bytes l z =
    sym (take-append-drop (length bytes - n) bytes)
    ∙ ap (λ (t : Bytes). take (length bytes - n) bytes ++ t)
        (all_zero-replicate (drop (length bytes - n) bytes) z
          ∙ ap (λ (k : ℕ). replicate k 0) {y = n}
              (omega (arith, l, length-drop (length bytes - n) bytes)))

both_true : (a b : Bool) → (a && b) ≡ true → (a ≡ true) × (b ≡ true)
both_true a b h = ground arith

-- Bytes that the code takes for terminated end in 1024 zeros.
already_terminated-zeros :
    (bytes : Bytes)
    → already_terminated bytes ≡ true
    → (front : Bytes) × (bytes ≡ front ++ replicate 1024 0)
unfolding already_terminated
already_terminated-zeros bytes h =
    let (long, zeros) = both_true (leb 1024 (length bytes)) _ h in
    (take (length bytes - 1024) bytes, zeros_behind 1024 bytes (leb→le _ _ long) zeros)

-- The terminator's repair leaves an archive that ends in 1024 zeros, two blocks of them, and begins
-- with its input, and repairing it again changes nothing.
pub terminate_terminates :
    (bytes : Bytes)
    → ((front : Bytes) × (terminate bytes ≡ front ++ replicate 1024 0))
      × (take (length bytes) (terminate bytes) ≡ bytes)
      × (terminate (terminate bytes) ≡ terminate bytes)
terminate_terminates bytes = (
  already_terminated-zeros (terminate bytes) (terminate-already_terminated bytes),
  elim (Bool-cases (already_terminated bytes)) [
    | inl fine ↦ ap (take (length bytes)) (terminate_closed bytes fine) ∙ take_whole bytes
    | inr missing ↦
        ap (take (length bytes)) (terminate_open bytes missing)
        ∙ take-length_append bytes terminator
  ],
  terminate_closed (terminate bytes) (terminate-already_terminated bytes),
)
