-- ===== src/Resync/GzipProven.antt =====
-- The verified members that crates/phx_recovery/src/resync/gzip.rs gives back.
use veraqis_recover.Prelude.{
  ℕ, ◌+◌, ◌%◌, ◌^◌, ◌≤◌, ◌≡◌, refl, true, false, ◌⊎◌, inl, inr, some, List, [], ◌∷◌, ◌++◌, Bytes,
  ◌==◌, min, length, drop, arith, Bool-cases,
}
use veraqis_recover.Recovery.Model.{Message}
use veraqis_recover.Resync.{
  Segment, is_verified, verified, SalvageResult, push, warn, verified_payload,
}
use veraqis_recover.Resync.Tallies.{IsTallied, push-IsTallied}
use veraqis_recover.Resync.Stored.{StoredBlock, scan_stored_blocks}
use veraqis_recover.Resync.Gzip.{Flate, inflate_member, gz_header_len, read_trailer}
use veraqis_recover.Resync.GzipWalk.{
  partial_segment, block_segment, push_blocks, salvage_unverified,
}

-- A member of the input: its header is read, its body inflates to the bytes, and the trailer behind
-- the body has their CRC-32 and their length modulo 2^32.
pub record IsGzipMember (flate : Flate) (input : Bytes) (s : Segment) : Type 0 where
  pub hlen : ℕ
  pub trailer : ℕ × ℕ
  pub header : gz_header_len input s.source_offset ≡ some hlen
  pub inflates : (inflate_member flate (drop (s.source_offset + hlen) input)).ok ≡ true
  pub body : s.bytes ≡ (inflate_member flate (drop (s.source_offset + hlen) input)).plain
  pub read :
      read_trailer input (
        s.source_offset
        + hlen
        + (inflate_member flate (drop (s.source_offset + hlen) input)).consumed)
      ≡ some trailer
  pub crc : flate.crc32 s.bytes ≡ trailer.0
  pub size : length s.bytes % 2 ^ 32 ≡ trailer.1
  pub ended :
      s.source_end
      ≡ min
          (s.source_offset
            + hlen
            + (inflate_member flate (drop (s.source_offset + hlen) input)).consumed
            + 8)
          (length input)

-- Every verified segment is a member, and lies behind the verified ones before it.
unfoldable pub Proven : Flate → Bytes → ℕ → List Segment → ℕ → Type 0
Proven flate input from [] to = from ≤ to
Proven flate input from (s ∷ ss) to =
    ((verified s ≡ false) × Proven flate input from ss to)
    ⊎ (IsGzipMember flate input s
        × (from ≤ s.source_offset)
        × Proven flate input s.source_end ss to)

module _ (flate : Flate) (input : Bytes) where
  pub Proven-extend :
      (from mid to : ℕ) (ss : List Segment)
      → Proven flate input from ss mid
      → mid ≤ to
      → Proven flate input from ss to
  unfolding Proven
  Proven-extend from mid to [] h l = omega arith
  Proven-extend from mid to (s ∷ ss) (inl h) l = inl (h.0, Proven-extend from mid to ss h.1 l)
  Proven-extend from mid to (s ∷ ss) (inr h) l =
      inr (h.0, h.1, Proven-extend s.source_end mid to ss h.2 l)

  Proven-other :
      (from to : ℕ) (ss : List Segment) (s : Segment)
      → Proven flate input from ss to
      → verified s ≡ false
      → Proven flate input from (ss ++ s ∷ []) to
  unfolding Proven
  Proven-other from to [] s h bad = inl (bad, h)
  Proven-other from to (t ∷ ss) s (inl h) bad = inl (h.0, Proven-other from to ss s h.1 bad)
  Proven-other from to (t ∷ ss) s (inr h) bad =
      inr (h.0, h.1, Proven-other t.source_end to ss s h.2 bad)

  pub Proven-member :
      (from mid to : ℕ) (ss : List Segment) (s : Segment)
      → Proven flate input from ss mid
      → IsGzipMember flate input s
      → mid ≤ s.source_offset
      → s.source_end ≤ to
      → Proven flate input from (ss ++ s ∷ []) to
  unfolding Proven
  Proven-member from mid to [] s h m l k = inr (m, omega arith, k)
  Proven-member from mid to (t ∷ ss) s (inl h) m l k =
      inl (h.0, Proven-member from mid to ss s h.1 m l k)
  Proven-member from mid to (t ∷ ss) s (inr h) m l k =
      inr (h.0, h.1, Proven-member t.source_end mid to ss s h.2 m l k)

-- What the loop keeps of a result, for a cursor.
pub record IsGzip (flate : Flate) (input : Bytes) (result : SalvageResult) (cursor : ℕ)
    : Type 0 where
  pub members : Proven flate input 0 result.segments cursor
  pub tallied : IsTallied result
  pub counted : result.members_verified ≤ result.members_total

module _ (flate : Flate) (input : Bytes) where
  pub IsGzip-extend :
      (result : SalvageResult) (mid to : ℕ)
      → IsGzip flate input result mid
      → mid ≤ to
      → IsGzip flate input result to
  IsGzip-extend result mid to h l = record {
    members = Proven-extend flate input 0 mid to result.segments h.members l;
    tallied = h.tallied;
    counted = h.counted;
  }

  pub warn-IsGzip :
      (message : Message) (result : SalvageResult) (cursor : ℕ)
      → IsGzip flate input result cursor
      → IsGzip flate input (warn message result) cursor
  unfolding verified_payload
  warn-IsGzip message result cursor h = record {
    members = h.members;
    tallied = record {
      bytes = h.tallied.bytes;
      members = h.tallied.members;
      others = h.tallied.others;
    };
    counted = h.counted;
  }

  push-IsGzip :
      (s : Segment) (result : SalvageResult) (cursor : ℕ)
      → verified s ≡ false
      → IsGzip flate input result cursor
      → IsGzip flate input (push s result) cursor
  push-IsGzip s result cursor bad h = record {
    members =
        unfold push in rw bad (Proven-other flate input 0 cursor result.segments s h.members bad);
    tallied = push-IsTallied s result h.tallied;
    counted = unfold push in rw bad h.counted;
  }

  push_blocks-IsGzip :
      (body_start : ℕ) (blocks : List StoredBlock) (result : SalvageResult) (cursor : ℕ)
      → IsGzip flate input result cursor
      → IsGzip flate input (push_blocks body_start blocks result) cursor
  unfolding push_blocks
  push_blocks-IsGzip body_start [] result cursor h = h
  push_blocks-IsGzip body_start (b ∷ blocks) result cursor h =
      push_blocks-IsGzip body_start blocks (push (block_segment body_start b) result) cursor (
        push-IsGzip (block_segment body_start b) result cursor
          (unfold block_segment is_verified in refl) h)

  pub salvage_unverified-IsGzip :
      (start body_start : ℕ) (inflated body : Bytes) (result : SalvageResult) (cursor : ℕ)
      → IsGzip flate input result cursor
      → IsGzip flate input (salvage_unverified start body_start inflated body result) cursor
  unfolding salvage_unverified
  salvage_unverified-IsGzip start body_start inflated body result cursor h =
      push_blocks-IsGzip body_start (scan_stored_blocks body) _ cursor
        (elim (Bool-cases (length inflated == 0)) [
          | inl nothing ↦ simp nothing h
          | inr something ↦ simp something (
              push-IsGzip (partial_segment start inflated) result cursor
                (unfold partial_segment is_verified in refl) h)
        ])
