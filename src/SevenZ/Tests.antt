-- ===== src/SevenZ/Tests.antt =====
-- A start header with a good CRC, damaged in its signature.
use veraqis_recover.Prelude.{
  ◌≡◌, ◌≢◌, ◌<◌, refl, true, none, some, [], ◌∷◌, ◌++◌, Bytes, to_le_bytes, replicate, take, drop,
  bytes_eq, bytes_eq_iff,
}
use veraqis_recover.Crc.{crc32}
use veraqis_recover.SevenZ.{
  signature, signature_ok, start_header_crc_ok, inspect, SignatureRepair, repair_signature,
}
use veraqis_recover.SevenZ.Repair.{
  distance, certificate, repair_signature_restores, repair_signature_sound,
}

abbrev start_header : Bytes
start_header = replicate 20 0

intact : Bytes
unfolding crc32
intact = signature ++ (0 ∷ 4 ∷ [] ++ (to_le_bytes 4 (crc32 start_header) ++ start_header))

abbrev damaged_front : Bytes
damaged_front = 0 ∷ 0 ∷ 0xBC ∷ 0xAF ∷ 0x27 ∷ 0x1C ∷ []

intact_signature : signature_ok intact ≡ true
unfolding signature_ok intact crc32
intact_signature = refl

intact_crc : start_header_crc_ok intact ≡ true
unfolding start_header_crc_ok intact crc32
intact_crc = refl

bytes_differ :
    (damaged_front ≡ signature → bytes_eq damaged_front signature ≡ true)
    → damaged_front ≢ signature
bytes_differ h q = cc (h q)

repair_signature_restores_example :
    repair_signature (damaged_front ++ drop 6 intact)
    ≡ some (record {
      bytes = intact;
      bytes_written = distance damaged_front signature;
      verified_by = certificate;
    })
repair_signature_restores_example =
    repair_signature_restores intact damaged_front intact_signature intact_crc refl
      (bytes_differ (bytes_eq_iff damaged_front signature).1)

abbrev repaired_intact : SignatureRepair
repaired_intact = record {
  bytes = intact;
  bytes_written = distance damaged_front signature;
  verified_by = certificate;
}

repair_signature_sound_example :
    (intact ≡ signature ++ drop 6 (damaged_front ++ drop 6 intact))
    × (inspect intact ≡ record (inspect (damaged_front ++ drop 6 intact)) { signature_ok = true })
    × (repaired_intact.bytes_written ≡ distance (take 6 (damaged_front ++ drop 6 intact)) signature)
    × (0 < repaired_intact.bytes_written)
    × (repair_signature intact ≡ none)
repair_signature_sound_example =
    repair_signature_sound (damaged_front ++ drop 6 intact) repaired_intact
      repair_signature_restores_example
