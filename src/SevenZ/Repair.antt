-- ===== src/SevenZ/Repair.antt =====
-- Properties of `repair_signature`, crates/phx_recovery/src/sevenz/mod.rs.
use veraqis_recover.Prelude.{
  ℕ, ◌+◌, ◌≤◌, ◌<◌, ◌≡◌, ◌≢◌, refl, sym, ap, ◌∙◌, Bool, true, false, [], ◌∷◌, ◌++◌, none, some, ltb,
  ◌==◌, if◌then◌else◌, length, take, drop, slice, Bytes, from_le_bytes, arith, Bool-cases, inl, inr,
  slice_behind, bytes_eq_iff, length-append, length-take, take-append-drop, take-length_append,
  drop-length_append, some_inj,
}
use Prim.Native.String.{String}
use veraqis_recover.SevenZ.{
  signature, signature_ok, start_header_crc_ok, inspect, SignatureRepair, restore, repair_signature,
}

-- At how many places two strings differ.
abbrev pub distance : Bytes → Bytes → ℕ
distance (x ∷ xs) (y ∷ ys) = (if x == y then 0 else 1) + distance xs ys
distance _ _ = 0

restore-append :
    (bs front tail : Bytes)
    → length front ≡ length bs
    → restore bs (front ++ tail) ≡ (bs ++ tail, distance front bs)
unfolding restore
restore-append [] [] tail h = refl
restore-append [] (x ∷ front) tail h = absurd (omega arith)
restore-append (b ∷ bs) [] tail h = absurd (omega arith)
restore-append (b ∷ bs) (x ∷ front) tail h =
    ground (arith, restore-append bs front tail (omega arith))

-- A string of six bytes at least is its first six bytes and the rest.
split_6 :
    (d : Bytes)
    → 6 ≤ length d
    → (front : Bytes) × (tail : Bytes) × (d ≡ front ++ tail) × (length front ≡ 6)
split_6 d h = (take 6 d, drop 6 d, sym (take-append-drop 6 d), omega (arith, length-take 6 d))

-- Two strings of one length that agree from byte 6 on.
record AgreeBehind (d d' : Bytes) : Type 0 where
  same_length : length d ≡ length d'
  same_rest : drop 6 d ≡ drop 6 d'

start_header_crc_ok_agree :
    (d d' : Bytes) → AgreeBehind d d' → start_header_crc_ok d ≡ start_header_crc_ok d'
unfolding start_header_crc_ok
start_header_crc_ok_agree d d' a = cc (
  slice_behind 6 8 12 d d' (omega arith) a.same_rest,
  slice_behind 6 12 32 d d' (omega arith) a.same_rest,
)

inspect_agree :
    (d d' : Bytes)
    → AgreeBehind d d'
    → inspect d' ≡ record (inspect d) { signature_ok = signature_ok d' }
unfolding inspect
inspect_agree d d' a =
    let off = from_le_bytes (slice 12 20 d) in
    let size = from_le_bytes (slice 20 28 d) in
    elim (Bool-cases (ltb (length d') 32)) [
      | inl short ↦ ground (arith, a.same_length)
      | inr long ↦ ground (
        arith,
        a.same_length,
        start_header_crc_ok_agree d d' a,
        slice_behind 6 12 20 d d' (omega arith) a.same_rest,
        slice_behind 6 20 28 d d' (omega arith) a.same_rest,
        slice_behind 6 28 32 d d' (omega arith) a.same_rest,
        slice_behind 6 (32 + off) (32 + off + size) d d' (omega arith) a.same_rest,
      )
    ]

abbrev pub certificate : String
certificate = "7z Start-Header CRC-32 over [12,32)"

signature_ok_restored : (tail : Bytes) → signature_ok (signature ++ tail) ≡ true
unfolding signature_ok
signature_ok_restored tail = ground arith

-- The first six bytes of a string with a sound signature are the signature.
signature_ok-take : (d : Bytes) → signature_ok d ≡ true → (6 ≤ length d) × (take 6 d ≡ signature)
unfolding signature_ok
signature_ok-take d h = ground (arith, bytes_eq_iff (take 6 d) signature)

AgreeBehind-front :
    (front tail : Bytes) → length front ≡ 6 → AgreeBehind (front ++ tail) (signature ++ tail)
AgreeBehind-front front tail h = record {
  same_length = omega (arith, length-append front tail);
  same_rest = ap (λ (n : ℕ). drop n (front ++ tail)) (sym h) ∙ drop-length_append front tail;
}

abbrev repaired : Bytes → Bytes → SignatureRepair
repaired out front = record {
  bytes = out;
  bytes_written = distance front signature;
  verified_by = certificate;
}

-- The result of a repair of a string cut after byte 6.
repair_front :
    (front tail : Bytes)
    → length front ≡ 6
    → 32 ≤ length (front ++ tail)
    → signature_ok (front ++ tail) ≡ false
    → start_header_crc_ok (front ++ tail) ≡ true
    → repair_signature (front ++ tail)
      ≡ some (record {
        bytes = signature ++ tail;
        bytes_written = distance front signature;
        verified_by = certificate;
      })
unfolding repair_signature
repair_front front tail h long bad crc = ground (arith, restore-append signature front tail)

front_damaged :
    (front tail : Bytes)
    → length front ≡ 6
    → front ≢ signature
    → signature_ok (front ++ tail) ≡ false
front_damaged front tail h ne = elim (Bool-cases (signature_ok (front ++ tail))) [
  | inl fine ↦ absurd (ne (sym cut ∙ (signature_ok-take (front ++ tail) fine).1))
  | inr bad ↦ bad
]
  where
    cut : take 6 (front ++ tail) ≡ front
    cut = ap (λ (n : ℕ). take n (front ++ tail)) (sym h) ∙ take-length_append front tail

distance_zero : (xs ys : Bytes) → length xs ≡ length ys → distance xs ys ≡ 0 → xs ≡ ys
distance_zero [] [] h e = refl
distance_zero [] (y ∷ ys) h e = absurd (omega arith)
distance_zero (x ∷ xs) [] h e = absurd (omega arith)
distance_zero (x ∷ xs) (y ∷ ys) h e = ground (arith, distance_zero xs ys (omega arith))

start_header_crc_ok-long : (d : Bytes) → start_header_crc_ok d ≡ true → 32 ≤ length d
unfolding start_header_crc_ok
start_header_crc_ok-long d h = ground arith

-- Take a string whose signature and Start-Header CRC are right, and overwrite its first six bytes by
-- any other six: the repair gives the original string back, and counts the bytes that had changed.
pub repair_signature_restores :
    (d front : Bytes)
    → signature_ok d ≡ true
    → start_header_crc_ok d ≡ true
    → length front ≡ 6
    → front ≢ signature
    → repair_signature (front ++ drop 6 d)
      ≡ some (record {
        bytes = d;
        bytes_written = distance front signature;
        verified_by = certificate;
      })
repair_signature_restores d front fine crc h ne =
    repair_front front (drop 6 d) h (start_header_crc_ok-long _ crc') (front_damaged front _ h ne)
      crc'
    ∙ ap (λ (t : Bytes). some (repaired t front)) (sym whole)
  where
    whole : d ≡ signature ++ drop 6 d
    whole =
        sym (take-append-drop 6 d) ∙ ap (λ (t : Bytes). t ++ drop 6 d) (signature_ok-take d fine).1

    crc' : start_header_crc_ok (front ++ drop 6 d) ≡ true
    crc' =
        start_header_crc_ok_agree _ _ (AgreeBehind-front front (drop 6 d) h)
        ∙ (ap start_header_crc_ok (sym whole) ∙ crc)

-- What a repair has tested.
repair_signature_guards :
    (d : Bytes) (r : SignatureRepair)
    → repair_signature d ≡ some r
    → (32 ≤ length d) × (signature_ok d ≡ false) × (start_header_crc_ok d ≡ true)
unfolding repair_signature
repair_signature_guards d r e = ground arith

repair_signature-repaired :
    (d : Bytes) (r : SignatureRepair)
    → repair_signature d ≡ some r
    → r ≡ repaired (signature ++ drop 6 d) (take 6 d)
repair_signature-repaired d r e =
    let (long, bad, crc) = repair_signature_guards d r e in
    let whole = take-append-drop 6 d in
    some_inj (
      sym e
      ∙ (ap repair_signature (sym whole)
          ∙ repair_front (take 6 d) (drop 6 d) (omega (arith, length-take 6 d)) (rw whole long)
              (rw whole bad) (rw whole crc)))

-- Whatever a repair returns is the input with only the signature put in place: every structural
-- fact that `inspect` reads is as before, the signature is now right, at least one byte was
-- written, and a second repair has nothing to do.
pub repair_signature_sound :
    (d : Bytes) (r : SignatureRepair)
    → repair_signature d ≡ some r
    → (r.bytes ≡ signature ++ drop 6 d)
      × (inspect r.bytes ≡ record (inspect d) { signature_ok = true })
      × (r.bytes_written ≡ distance (take 6 d) signature)
      × (0 < r.bytes_written)
      × (repair_signature r.bytes ≡ none)
repair_signature_sound d r e =
    let (long, bad, crc) = repair_signature_guards d r e in
    let same = repair_signature-repaired d r e in
    let fine = signature_ok_restored (drop 6 d) in
    (
      ap (λ (x : SignatureRepair). x.bytes) same,
      ap (λ (x : SignatureRepair). inspect x.bytes) same
          ∙ (inspect_agree d (signature ++ drop 6 d) agree
              ∙ ap (λ (b : Bool). record (inspect d) { signature_ok = b }) fine),
      ap (λ (x : SignatureRepair). x.bytes_written) same,
      omega (arith, ap (λ (x : SignatureRepair). x.bytes_written) same, changed bad),
      ap (λ (x : SignatureRepair). repair_signature x.bytes) same ∙ sound_again fine,
    )
  where
    long_enough : 32 ≤ length d
    long_enough = (repair_signature_guards d r e).0

    agree : AgreeBehind d (signature ++ drop 6 d)
    agree =
        rw (take-append-drop 6 d) at
          (AgreeBehind-front (take 6 d) (drop 6 d) (omega (arith, long_enough, length-take 6 d)))

    same_signature : distance (take 6 d) signature ≡ 0 → d ≡ signature ++ drop 6 d
    same_signature z =
        sym (take-append-drop 6 d)
        ∙ ap (λ (t : Bytes). t ++ drop 6 d)
            (distance_zero (take 6 d) signature (omega (arith, long_enough, length-take 6 d)) z)

    changed : signature_ok d ≡ false → 0 < distance (take 6 d) signature
    changed bad = elim (Bool-cases (distance (take 6 d) signature == 0)) [
      | inl zero_ ↦
          cc
            (bad, ap signature_ok (same_signature (ground arith)), signature_ok_restored (drop 6 d))
      | inr more ↦ ground arith
    ]

    sound_again :
        signature_ok (signature ++ drop 6 d) ≡ true
        → repair_signature (signature ++ drop 6 d) ≡ none
    sound_again fine = unfold repair_signature in ground (arith, fine)
