-- ===== src/Crc/Tests.antt =====
-- Runs of the checksum: the catalogue's check values.
use veraqis_recover.Prelude.{
  All, IsByte, ℕ, ◌<◌, ◌^◌, ◌≡◌, ◌≢◌, ◌↔◌, refl, true, List, [], ◌∷◌, arith,
}
use veraqis_recover.Crc.{checksum, verify, crc32, crc32_iso_hdlc, crc64_xz, crc32_bzip2}
use veraqis_recover.Crc.Detect.{
  checksum-ne, verify_detects, checksum-lt, crc32_iso_hdlc-IsSound, crc64_xz-IsSound,
  crc32_bzip2-IsSound,
}
use veraqis_recover.Crc.Table.{table_crc32}
use veraqis_recover.Crc.Bitwise.{bitwise_crc32, table_crc32-bitwise_crc32}

abbrev digits_1_to_9 : List ℕ
digits_1_to_9 = b'1' ∷ b'2' ∷ b'3' ∷ b'4' ∷ b'5' ∷ b'6' ∷ b'7' ∷ b'8' ∷ b'9' ∷ []

check_iso_hdlc : checksum crc32_iso_hdlc digits_1_to_9 ≡ 0xCBF4_3926
unfolding crc32
check_iso_hdlc = refl

check_xz : checksum crc64_xz digits_1_to_9 ≡ 0x995D_C9BB_DF19_39FA
unfolding crc32
check_xz = refl

check_bzip2 : checksum crc32_bzip2 digits_1_to_9 ≡ 0xFC89_1918
unfolding crc32
check_bzip2 = refl

-- The original "12", and the same with its second byte overwritten by "3".
checksum-ne_example :
    checksum crc32_iso_hdlc (b'1' ∷ b'2' ∷ []) ≢ checksum crc32_iso_hdlc (b'1' ∷ b'3' ∷ [])
checksum-ne_example =
    checksum-ne crc32_iso_hdlc crc32_iso_hdlc-IsSound (b'1' ∷ []) [] b'2' b'3'
      (omega arith, (omega arith, tt)) (omega arith) (omega arith)

verify_detects_example :
    (verify crc64_xz (b'1' ∷ b'3' ∷ []) (checksum crc64_xz (b'1' ∷ b'2' ∷ [])) ≡ true)
    ↔ (◌≡◌ {A = ℕ} b'2' b'3')
verify_detects_example =
    verify_detects crc64_xz crc64_xz-IsSound (b'1' ∷ []) [] b'2' b'3'
      (omega arith, (omega arith, tt)) (omega arith)

checksum-lt_example : checksum crc32_bzip2 digits_1_to_9 < 2 ^ 32
checksum-lt_example = checksum-lt crc32_bzip2 crc32_bzip2-IsSound digits_1_to_9

abbrev two_digits : List ℕ
two_digits = b'1' ∷ b'2' ∷ []

two_digits-IsByte : All IsByte two_digits
two_digits-IsByte = (omega arith, (omega arith, tt))

table_crc32-bitwise_crc32_example : table_crc32 two_digits ≡ bitwise_crc32 two_digits
table_crc32-bitwise_crc32_example = table_crc32-bitwise_crc32 two_digits two_digits-IsByte
