-- ===== src/Strategies/ResyncEntries.antt =====
-- The entries that strategies/tar_size_resync.rs writes.
use veraqis_recover.Prelude.{
  ℕ, zero, suc, ◌+◌, ◌*◌, ◌^◌, ◌≤◌, ◌<◌, ◌≡◌, refl, sym, ap, ap₂, ◌∙◌, true, Bytes, IsByte, All, [],
  ◌∷◌, ◌++◌, length, slice, length-append, length-overwrite, slice-overwrite, before-overwrite,
  behind-overwrite, All-overwrite, All-append, bytes_eq, arith, some, ==_iff,
}
use veraqis_recover.Ustar.{octal_fixed, is_ustar, or_value}
use veraqis_recover.Ustar.Octal.{is_blank, octal_text_lem, length-octal_fixed}
use veraqis_recover.Ustar.Written.{length-with_checksum}
use veraqis_recover.Resync.Tar.{size_of, blocks_of, read_name, join_name, cstr, octal}
use veraqis_recover.Resync.Spans.{IsWhole}
use veraqis_recover.Resync.OctalFields.{
  octal-octal_fixed, with_checksum-checksum_ok, with_checksum_behind, with_checksum_before,
}
use veraqis_recover.Strategies.SizeResync.{size_field, with_size, header_written, rebuilt_header}

octal_fixed-IsByte : (w n : ℕ) → All IsByte (octal_fixed w n)
unfolding octal_fixed
octal_fixed-IsByte zero n = tt
octal_fixed-IsByte (suc w) n = (omega arith, octal_fixed-IsByte w n)

-- The size field of a size below 8 GiB.
size_field_lem : (n : ℕ) → n < 8 ^ 11 → size_field n ≡ octal_fixed 11 n ++ (0 ∷ [])
unfolding size_field
size_field_lem n h = ap (λ (t : Bytes). t ++ 0 ∷ []) (octal_text_lem 11 n h)

length-size_field : (n : ℕ) → n < 8 ^ 11 → length (size_field n) ≡ 12
length-size_field n h =
    ap length (size_field_lem n h)
    ∙ omega (arith, length-append (octal_fixed 11 n) (0 ∷ []), length-octal_fixed 11 n)

-- A size below 8 GiB is written.
pub rebuilt_header_small :
    (n : ℕ) (block : Bytes) → n < 8 ^ 11 → rebuilt_header n block ≡ some (header_written n block)
unfolding rebuilt_header
rebuilt_header_small n block h =
    rw ((==_iff (length (size_field n)) 12).1 (length-size_field n h)) refl

size_field-IsByte : (n : ℕ) → n < 8 ^ 11 → All IsByte (size_field n)
size_field-IsByte n h =
    rw (size_field_lem n h)
      (All-append IsByte (octal_fixed 11 n) (0 ∷ []) (octal_fixed-IsByte 11 n) (omega arith, tt))

module _ (block : Bytes) (size : ℕ) (h : All IsByte block) (l : length block ≡ 512)
    (s : size < 8 ^ 11) where
  length-with_size : length (with_size size block) ≡ 512
  unfolding with_size
  length-with_size =
      length-overwrite 124 136 (size_field size) block (omega (arith, length-size_field size s))
        (omega (arith, l))
      ∙ l

  with_size-IsByte : All IsByte (with_size size block)
  unfolding with_size
  with_size-IsByte =
      All-overwrite IsByte 124 136 (size_field size) block (size_field-IsByte size s) h

  size_length : 124 + length (size_field size) ≡ 136
  size_length = omega (arith, length-size_field size s)

  sized_behind : (c d : ℕ) → 136 ≤ c → slice c d (with_size size block) ≡ slice c d block
  unfolding with_size
  sized_behind = behind-overwrite 124 136 (size_field size) block size_length (omega (arith, l))

  sized_before : (c d : ℕ) → d ≤ 124 → slice c d (with_size size block) ≡ slice c d block
  unfolding with_size
  sized_before = before-overwrite 124 136 (size_field size) block size_length (omega (arith, l))

  -- What the rebuilt header keeps behind its checksum, and before its size.
  header_behind : (c d : ℕ) → 156 ≤ c → slice c d (header_written size block) ≡ slice c d block
  unfolding header_written
  header_behind c d k =
      with_checksum_behind (with_size size block) with_size-IsByte length-with_size c d k
      ∙ sized_behind c d (omega arith)

  header_before : (c d : ℕ) → d ≤ 124 → slice c d (header_written size block) ≡ slice c d block
  unfolding header_written
  header_before c d k =
      with_checksum_before (with_size size block) with_size-IsByte length-with_size c d
        (omega arith)
      ∙ sized_before c d k

  -- The name is the block's, and the size is the one written.
  pub read_name-header_written : read_name (header_written size block) ≡ read_name block
  unfolding read_name
  read_name-header_written =
      ap₂ (λ (p n : Bytes). join_name (cstr p) (cstr n)) (header_behind 345 500 (omega arith))
        (header_before 0 100 (omega arith))

  pub size_of-header_written : size_of (header_written size block) ≡ size
  unfolding size_of
  size_of-header_written =
      ap (λ (t : Bytes). or_value 0 (octal t)) field
      ∙ ap (or_value 0) (octal-octal_fixed 9 size 0 [] s (omega arith) (unfold is_blank in refl))
    where
      field : slice 124 136 (header_written size block) ≡ octal_fixed 11 size ++ (0 ∷ [])
      field =
          unfold header_written in
          with_checksum_before (with_size size block) with_size-IsByte length-with_size 124 136
            (omega arith)
          ∙ (unfold with_size in
              slice-overwrite 124 136 (size_field size) block
                (omega (arith, length-size_field size s)) (omega (arith, l))
              ∙ size_field_lem size s)

  -- With as many whole blocks of data as the size needs, the header makes a member.
  pub header_written-IsWhole :
      (body : Bytes)
      → is_ustar block ≡ true
      → length body ≡ blocks_of size * 512
      → IsWhole (header_written size block) body
  header_written-IsWhole body magic b = record {
    sized =
        unfold header_written in
        length-with_checksum (with_size size block) with_size-IsByte length-with_size;
    magic =
        ap (λ (t : Bytes). bytes_eq t (b'u' ∷ b's' ∷ b't' ∷ b'a' ∷ b'r' ∷ []))
          (header_behind 257 262 (omega arith))
        ∙ magic;
    own =
        unfold header_written in
        with_checksum-checksum_ok (with_size size block) with_size-IsByte length-with_size;
    padded = b ∙ ap (λ (n : ℕ). blocks_of n * 512) (sym size_of-header_written);
  }
