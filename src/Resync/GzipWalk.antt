-- ===== src/Resync/GzipWalk.antt =====
-- The loop of `salvage_gzip` of crates/phx_recovery/src/resync/gzip.rs over the starts of members. Where
-- the source panics, since a slice ends before it starts, there is no result.
use veraqis_recover.Prelude.{
  ℕ, suc, ◌+◌, ◌%◌, ◌^◌, Bool, ◌&&◌, Option, none, some, List, [], ◌∷◌, ◌++◌, Bytes, if◌then◌else◌,
  ltb, ◌==◌, min, length, drop, get_slice?,
}
use veraqis_recover.Prelude.Options.{◌>>=◌}
use veraqis_recover.Recovery.Model.{Message, number, text, plain}
use veraqis_recover.Resync.{
  Segment, verified_gzip_member, stored_block_salvage, partial_inflate, SalvageResult, new, push,
  warn,
}
use veraqis_recover.Resync.Stored.{StoredBlock, scan_stored_blocks}
use veraqis_recover.Resync.Gzip.{
  Flate, InflateOutcome, inflate_member, member_starts, gz_header_len, read_trailer,
}

pub record GzipWalk : Type 0 where
  pub result : SalvageResult
  pub cursor : ℕ

unfoldable pub partial_segment : ℕ → Bytes → Segment
partial_segment start bytes = record {
  kind = partial_inflate;
  name = none;
  source_offset = start;
  source_end = start;
  bytes = bytes;
  note =
      text "partial inflate before corruption ("
      ∷ number (length bytes)
      ∷ text " B, UNVERIFIED)"
      ∷ [];
}

unfoldable pub block_segment : ℕ → StoredBlock → Segment
block_segment body_start block = record {
  kind = stored_block_salvage;
  name = none;
  source_offset = body_start + block.header_offset;
  source_end = body_start + block.header_offset;
  bytes = block.payload;
  note = text "DEFLATE stored block (" ∷ number block.len ∷ text " B, UNVERIFIED)" ∷ [];
}

-- The `for` loop over the stored blocks.
unfoldable pub push_blocks : ℕ → List StoredBlock → SalvageResult → SalvageResult
push_blocks body_start [] result = result
push_blocks body_start (block ∷ blocks) result =
    push_blocks body_start blocks (push (block_segment body_start block) result)

unfoldable pub salvage_unverified : ℕ → ℕ → Bytes → Bytes → SalvageResult → SalvageResult
salvage_unverified start body_start inflated body result =
    push_blocks body_start (scan_stored_blocks body)
      (if length inflated == 0 then result else push (partial_segment start inflated) result)

unfoldable pub label_of : SalvageResult → Message
label_of result = text "member#" ∷ number result.members_total ∷ []

-- A member that is not verified: `&data[body_start..next_start]` panics if the header ends behind the
-- next start.
unfoldable pub unverified : Bytes → ℕ → ℕ → ℕ → Message → Bytes → GzipWalk → Option GzipWalk
unverified input next_start start body_start message inflated walk = do
  body ← get_slice? body_start next_start input
  some (record {
    result =
        salvage_unverified start body_start inflated body
          (warn (label_of walk.result ++ message) walk.result);
    cursor = next_start;
  })

unfoldable pub gzip_segment : Bytes → ℕ → ℕ → Message → Bytes → Segment
gzip_segment input start trailer_at label bytes = record {
  kind = verified_gzip_member;
  name = some label;
  source_offset = start;
  source_end = min (trailer_at + 8) (length input);
  bytes = bytes;
  note = text "CRC32+ISIZE verified (" ∷ number (length bytes) ∷ text " B)" ∷ [];
}

unfoldable pub trailer_matches : Flate → Bytes → ℕ × ℕ → Bool
trailer_matches flate bytes trailer =
    flate.crc32 bytes == trailer.0 && length bytes % 2 ^ 32 == trailer.1

unfoldable pub keep_gzip_member : Bytes → ℕ → ℕ → Bytes → GzipWalk → GzipWalk
keep_gzip_member input start trailer_at bytes walk = record {
  result = push (gzip_segment input start trailer_at (label_of walk.result) bytes) walk.result;
  cursor = trailer_at + 8;
}

unfoldable pub on_trailer :
    Flate → Bytes → ℕ → ℕ → ℕ → InflateOutcome → Option (ℕ × ℕ) → GzipWalk → Option GzipWalk
on_trailer flate input next_start start body_start outcome none walk =
    unverified input next_start start body_start (plain ": inflated but trailer truncated")
      outcome.plain walk
on_trailer flate input next_start start body_start outcome (some trailer) walk =
    if trailer_matches flate outcome.plain trailer
    then some (keep_gzip_member input start (body_start + outcome.consumed) outcome.plain walk)
    else unverified input next_start start body_start
        (plain ": inflated but trailer mismatch — best-effort only") outcome.plain walk

unfoldable pub on_outcome : Flate → Bytes → ℕ → ℕ → ℕ → InflateOutcome → GzipWalk → Option GzipWalk
on_outcome flate input next_start start body_start outcome walk =
    if outcome.ok
    then on_trailer flate input next_start start body_start outcome
        (read_trailer input (body_start + outcome.consumed)) walk
    else unverified input next_start start body_start
        (plain ": DEFLATE decode failed — resync salvage") outcome.plain walk

unfoldable pub on_header : Flate → Bytes → ℕ → ℕ → Option ℕ → GzipWalk → Option GzipWalk
on_header flate input next_start start none walk = some (record {
  result =
      warn
        (label_of walk.result
          ++ text " at " ∷ number start ∷ text ": malformed header — skipped" ∷ [])
        walk.result;
  cursor = next_start;
})
on_header flate input next_start start (some hlen) walk =
    on_outcome flate input next_start start (start + hlen)
      (inflate_member flate (drop (start + hlen) input)) walk

unfoldable pub count_start : GzipWalk → GzipWalk
count_start walk = record walk {
  result = record walk.result { members_total = suc walk.result.members_total };
}

-- The body of the `for` loop.
unfoldable pub on_start : Flate → Bytes → ℕ → ℕ → GzipWalk → Option GzipWalk
on_start flate input next_start start walk =
    if ltb start walk.cursor
    then some walk
    else on_header flate input next_start start (gz_header_len input start) (count_start walk)

-- `starts.get(k + 1)`, or the end.
unfoldable pub next_or : ℕ → List ℕ → ℕ
next_or end [] = end
next_or end (next ∷ starts) = next

unfoldable pub gzip_loop : Flate → Bytes → List ℕ → GzipWalk → Option GzipWalk
gzip_loop flate input [] walk = some walk
gzip_loop flate input (start ∷ starts) walk = do
  next ← on_start flate input (next_or (length input) starts) start walk
  gzip_loop flate input starts next

unfoldable pub close_gzip : GzipWalk → SalvageResult
close_gzip walk =
    if walk.result.members_verified == 0
    then warn (plain "no member could be CRC-verified; nothing returned as exact") walk.result
    else walk.result

unfoldable pub salvage_from : Flate → Bytes → List ℕ → Option SalvageResult
salvage_from flate input [] =
    some (warn (plain "no GZIP member magic (1F 8B 08) found") (new "gzip"))
salvage_from flate input (start ∷ starts) = do
  walk ← gzip_loop flate input (start ∷ starts) (record { result = new "gzip"; cursor = 0 })
  some (close_gzip walk)

unfoldable pub salvage_gzip : Flate → Bytes → Option SalvageResult
salvage_gzip flate input = salvage_from flate input (member_starts input)
