-- ===== src/Strategies/SizeResync.antt =====
-- strategies/tar_size_resync.rs: a TAR whose size fields run into the next header.
use veraqis_recover.Prelude.{
  ℕ, zero, suc, ◌+◌, ◌-◌, ◌*◌, ◌/◌, Bool, true, false, ◌&&◌, Option, none, some, List, [], ◌∷◌,
  ◌++◌, Bytes, if◌then◌else◌, ltb, leb, ◌==◌, min, length, take, drop, slice, replicate,
}
use mathlib.Core.Option
use veraqis_recover.Prelude.Results.{Result, ok, ◌>>=◌}
use veraqis_recover.Recovery.Model.{
  RecoveryError, RecoveryReport, number, text, plain, DataSource, read_all,
}
use veraqis_recover.Ustar.{all_zero, is_ustar, octal_field, octal_text, or_value, with_checksum}
use veraqis_recover.Resync.Tar.{blocks_of}
use veraqis_recover.Strategies.Common.{started}

-- A block with the magic that is not all zeros.
unfoldable pub is_ustar_header : Bytes → Bool
is_ustar_header block =
    if ltb (length block) 265 then false else if all_zero block then false else is_ustar block

-- Phase 1, from block `i` on.
unfoldable pub headers_from : Bytes → ℕ → ℕ → List ℕ
headers_from input i zero = []
headers_from input i (suc blocks) =
    let rest = headers_from input (suc i) blocks in
    if is_ustar_header (slice (i * 512) (i * 512 + 512) input) then i * 512 ∷ rest else rest

-- The first of two blocks of zeros among `pairs` pairs from block `i` on, or else the end.
unfoldable pub end_from : Bytes → ℕ → ℕ → ℕ → ℕ
end_from input nblocks i zero = nblocks * 512
end_from input nblocks i (suc pairs) =
    let rest = end_from input nblocks (suc i) pairs in
    if all_zero (slice (i * 512) (i * 512 + 512) input)
      && all_zero (slice (suc i * 512) (suc i * 512 + 512) input)
    then i * 512
    else rest

unfoldable pub find_end_of_archive : Bytes → ℕ → ℕ
find_end_of_archive input nblocks = end_from input nblocks 0 (nblocks - 1)

-- `header_positions[idx + 1]`, or the end of the archive.
unfoldable pub next_boundary : ℕ → List ℕ → ℕ
next_boundary eoa [] = eoa
next_boundary eoa (next ∷ offsets) = next

-- The size a header is given, and whether it is corrected: a size that runs into the next header is
-- replaced by the gap.
unfoldable pub true_size : ℕ → ℕ → ℕ × ℕ × Bool
true_size stored max_data =
    if leb (blocks_of stored * 512) max_data
    then (stored, blocks_of stored, false)
    else (max_data / 512 * 512, max_data / 512, true)

-- The text of a size: eleven octal digits at least, and a NUL.
unfoldable pub size_field : ℕ → Bytes
size_field size = octal_text 11 size ++ 0 ∷ []

unfoldable pub with_size : ℕ → Bytes → Bytes
with_size size block = take 124 block ++ (size_field size ++ drop 136 block)

unfoldable pub header_written : ℕ → Bytes → Bytes
header_written size block = with_checksum (with_size size block)

-- `copy_from_slice` panics where the text has not the twelve bytes of the field, as for a size of 8^11
-- bytes or more: there is no result then, here and in what follows.
unfoldable pub rebuilt_header : ℕ → Bytes → Option Bytes
rebuilt_header size block =
    if length (size_field size) == 12 then some (header_written size block) else none

-- The data blocks, filled with zeros behind the end.
unfoldable pub copied_data : Bytes → ℕ → ℕ → Bytes
copied_data input data_start blocks =
    let data_end = min (data_start + blocks * 512) (length input) in
    slice data_start data_end input ++ replicate (blocks * 512 - (data_end - data_start)) 0

unfoldable pub stored_size : Bytes → ℕ
stored_size block = or_value 0 (octal_field (slice 124 136 block))

-- One header at `offset` and its data, and whether its size was corrected.
unfoldable pub resync_entry : Bytes → ℕ → ℕ → Option (Bytes × Bool)
resync_entry input offset boundary =
    let block = slice offset (offset + 512) input in
    let (size, blocks, corrected) = true_size (stored_size block) (boundary - (offset + 512)) in
    Option.map (λ (header : Bytes). (header ++ copied_data input (offset + 512) blocks, corrected))
      (rebuilt_header size block)

-- An entry before those that follow, and the count of corrected sizes.
unfoldable pub add_entry : Option (Bytes × Bool) → Option (Bytes × ℕ) → Option (Bytes × ℕ)
add_entry none later = none
add_entry (some entry) none = none
add_entry (some (entry, corrected)) (some (later, count)) =
    some (entry ++ later, (if corrected then suc count else count))

-- The `for` loop over the headers.
unfoldable pub resync_entries : Bytes → ℕ → List ℕ → Option (Bytes × ℕ)
resync_entries input eoa [] = some ([], 0)
resync_entries input eoa (offset ∷ offsets) =
    add_entry (resync_entry input offset (next_boundary eoa offsets))
      (resync_entries input eoa offsets)

-- The archive that is written, and the count of corrected sizes.
unfoldable pub resync_archive : Bytes → Option (Bytes × ℕ)
resync_archive input =
    Option.map (λ (out : Bytes × ℕ). (out.0 ++ replicate 1024 0, out.1))
      (resync_entries input (find_end_of_archive input (length input / 512))
        (headers_from input 0 (length input / 512)))

unfoldable pub size_resync_report : Bytes → List ℕ → Bytes × ℕ → RecoveryReport
size_resync_report input positions (out, corrected) = record (started "tar-size-resync") {
  bytes_recovered = length out;
  success = true;
  warnings =
      (text "resynced "
        ∷ number (length positions)
        ∷ text "/"
        ∷ number (length input / 512)
        ∷ text " entries; corrected size field in "
        ∷ number corrected
        ∷ [])
      ∷ [];
}

unfoldable pub size_resync_result : Bytes → Bytes → List ℕ → Option (Bytes × RecoveryReport)
size_resync_result sink input [] = some (
  sink,
  record (started "tar-size-resync") {
    warnings = plain "no UStar headers found; cannot resync" ∷ [];
  },
)
size_resync_result sink input (offset ∷ offsets) =
    Option.map
      (λ (out : Bytes × ℕ). (sink ++ out.0, size_resync_report input (offset ∷ offsets) out))
      (resync_archive input)

unfoldable pub apply_size_resync :
    DataSource → Bytes → Result RecoveryError (Option (Bytes × RecoveryReport))
apply_size_resync source sink = do
  input ← read_all source
  ok (size_resync_result sink input (headers_from input 0 (length input / 512)))
