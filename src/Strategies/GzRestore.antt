-- ===== src/Strategies/GzRestore.antt =====
-- strategies/gz_restore.rs: the magic, the trailer and the readable front of a GZIP member.
use veraqis_recover.Prelude.{
  ℕ, ◌-◌, ◌%◌, ◌^◌, true, ◌&&◌, ◌||◌, ◌⊎◌, inl, inr, Option, none, some, [], ◌∷◌, ◌++◌, Bytes,
  to_le_bytes, if◌then◌else◌, ltb, leb, ◌==◌, any, length, take, drop, slice,
}
use veraqis_recover.Prelude.Texts.{String}
use veraqis_recover.Prelude.Results.{Result, ok, err, ◌>>=◌}
use veraqis_recover.Recovery.Model.{
  gzip, truncation, RecoveryError, strategy_failed, RecoveryReport, RecoveryStrategy, number, text,
  hex, Message, plain, safe, inferred, lossy, DataSource, read_all,
}
use veraqis_recover.Resync.Gzip.{Flate}
use veraqis_recover.Strategies.Common.{is_category, is_rule, is_format, started}
use veraqis_recover.Strategies.GzBody.{gz_body_start, deflate_body, read_to_end}

-- The first two bytes written over.
unfoldable pub with_magic : Bytes → Bytes
with_magic input = 0x1F ∷ 0x8B ∷ drop 2 input

unfoldable pub magic_restore_result : Bytes → Bytes → Bytes × RecoveryReport
magic_restore_result sink input =
    if ltb (length input) 2
    then (
      sink,
      record (started "gz-magic-restore") {
        warnings = plain "file too short to contain GZIP magic" ∷ [];
      },
    )
    else (
      sink ++ with_magic input,
      record (started "gz-magic-restore") {
        bytes_recovered = length input;
        success = true;
        warnings = plain "restored GZIP magic bytes 1F 8B at offset 0" ∷ [];
      },
    )

unfoldable pub apply_magic_restore :
    DataSource → Bytes → Result RecoveryError (Bytes × RecoveryReport)
apply_magic_restore source sink = do input ← read_all source; ok (magic_restore_result sink input)

unfoldable pub gz_magic_restore : RecoveryStrategy
gz_magic_restore = record {
  name = "gz-magic-restore";
  technique = "GzMagicRestore";
  risk = safe;
  handles = is_rule "GZ_MAGIC_001";
  predicted_outcome = λ c. plain "overwrite bytes 0–1 with the GZIP magic 1F 8B";
  can_apply = λ result. is_format gzip result && any (is_rule "GZ_MAGIC_001") result.corruptions;
  priority = 85;
  apply = apply_magic_restore;
}

-- The stream with its trailer written anew.
unfoldable pub with_trailer : Flate → Bytes → Bytes → Bytes
with_trailer flate front content =
    front ++ (to_le_bytes 4 (flate.crc32 content) ++ to_le_bytes 4 (length content % 2 ^ 32))

-- The trailer for what the body inflates to, or the error that ended it.
unfoldable pub trailer_written :
    Flate → Bytes → Bytes → Bytes × Option String → Bytes × RecoveryReport
trailer_written flate sink input (content, some error) = (
  sink,
  record (started "gz-trailer-recompute") {
    warnings =
        (text "stream does not reach end-of-stream ("
          ∷ number (length content)
          ∷ text " B decoded): "
          ∷ text error
          ∷ text "; refusing to rewrite the trailer of an incomplete stream"
          ∷ [])
        ∷ [];
  },
)
trailer_written flate sink input (content, none) = (
  sink ++ with_trailer flate (take (length input - 8) input) content,
  record (started "gz-trailer-recompute") {
    bytes_recovered = length input;
    success = true;
    warnings =
        (text "recomputed GZIP trailer: CRC32=0x"
          ∷ hex (flate.crc32 content)
          ∷ text " ISIZE="
          ∷ number (length content % 2 ^ 32)
          ∷ [])
        ∷ [];
  },
)

-- What the body between the header and the trailer inflates to.
unfoldable pub inflated_body : Flate → Bytes → Bytes × Option String
inflated_body flate input =
    read_to_end [] (flate.decoder (slice (gz_body_start input) (length input - 8) input))

unfoldable pub trailer_recompute_result : Flate → Bytes → Bytes → Bytes × RecoveryReport
trailer_recompute_result flate sink input =
    if ltb (length input) 18
    then (
      sink,
      record (started "gz-trailer-recompute") { warnings = plain "file too short for GZIP" ∷ [] },
    )
    else if leb (length input - 8) (gz_body_start input)
    then (
      sink,
      record (started "gz-trailer-recompute") {
        warnings = plain "GZIP body is empty or missing" ∷ [];
      },
    )
    else trailer_written flate sink input (inflated_body flate input)

unfoldable pub apply_trailer_recompute :
    Flate → DataSource → Bytes → Result RecoveryError (Bytes × RecoveryReport)
apply_trailer_recompute flate source sink = do
  input ← read_all source
  ok (trailer_recompute_result flate sink input)

unfoldable pub gz_trailer_recompute : Flate → RecoveryStrategy
gz_trailer_recompute flate = record {
  name = "gz-trailer-recompute";
  technique = "GzTrailerRecompute";
  risk = inferred;
  handles = λ c. is_rule "GZ_ICRC_001" c || is_rule "GZ_ISIZE_001" c;
  predicted_outcome =
      λ c. plain "decompress the stream, recompute CRC32 and ISIZE, rewrite the 8-byte trailer";
  can_apply = λ result.
      is_format gzip result
      && any (λ c. is_rule "GZ_ICRC_001" c || is_rule "GZ_ISIZE_001" c) result.corruptions;
  priority = 82;
  apply = apply_trailer_recompute flate;
}

unfoldable pub tail_note : Option String → ℕ → Message
tail_note none recovered = text "; " ∷ number recovered ∷ text " bytes recovered" ∷ []
tail_note (some error) recovered =
    text "; " ∷ number recovered ∷ text " bytes recovered, tail lost at corruption boundary" ∷ []

-- The content wrapped by the encoder; its failure is an error.
unfoldable pub partial_wrapped :
    Bytes
    → Bytes
    → Bytes × Option String
    → String ⊎ Bytes
    → Result RecoveryError (Bytes × RecoveryReport)
partial_wrapped sink input inflated (inl error) = err (strategy_failed "gz-partial-inflate" error)
partial_wrapped sink input inflated (inr out) = ok (
  sink ++ out,
  record (started "gz-partial-inflate") {
    bytes_recovered = length inflated.0;
    bytes_lost = length input - length inflated.0;
    success = true;
    warnings = (text "partial inflate" ∷ tail_note inflated.1 (length inflated.0)) ∷ [];
  },
)

unfoldable pub partial_inflate_result :
    Flate → Bytes → Bytes → Bytes × Option String → Result RecoveryError (Bytes × RecoveryReport)
partial_inflate_result flate sink input inflated =
    if length inflated.0 == 0
    then ok (
      sink,
      record (started "gz-partial-inflate") {
        warnings = plain "no bytes could be decompressed; stream may be fully corrupted" ∷ [];
      },
    )
    else partial_wrapped sink input inflated (flate.encode inflated.0)

unfoldable pub apply_partial_inflate :
    Flate → DataSource → Bytes → Result RecoveryError (Bytes × RecoveryReport)
apply_partial_inflate flate source sink = do
  input ← read_all source
  partial_inflate_result flate sink input (read_to_end [] (flate.decoder (deflate_body input)))

unfoldable pub gz_partial_inflate : Flate → RecoveryStrategy
gz_partial_inflate flate = record {
  name = "gz-partial-inflate";
  technique = "GzPartialInflate";
  risk = lossy;
  handles = λ c. is_rule "GZ_TRUNC_001" c || is_rule "GZ_TRUNC_002" c;
  predicted_outcome = λ c.
      plain
        "decompress readable bytes and wrap in a fresh GZIP stream; tail past corruption is lost";
  can_apply = λ result.
      is_format gzip result
      && any
          (λ c. is_category truncation c || (is_rule "GZ_TRUNC_001" c || is_rule "GZ_TRUNC_002" c))
          result.corruptions;
  priority = 40;
  apply = apply_partial_inflate flate;
}
