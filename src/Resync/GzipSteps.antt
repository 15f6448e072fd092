-- ===== src/Resync/GzipSteps.antt =====
-- The steps at one member of crates/phx_recovery/src/resync/gzip.rs.
use veraqis_recover.Prelude.{
  ℕ, suc, ◌+◌, ◌%◌, ◌^◌, ◌≤◌, ◌≡◌, refl, true, inl, inr, Option, none, some, Bytes, le→leb, length,
  drop, slice, arith, Bool-cases,
}
use veraqis_recover.Recovery.Model.{Message}
use veraqis_recover.Resync.{is_verified, push}
use veraqis_recover.Resync.Tallies.{push-IsTallied}
use veraqis_recover.Resync.Gzip.{Flate, InflateOutcome, inflate_member, gz_header_len, read_trailer}
use veraqis_recover.Resync.GzipWalk.{
  GzipWalk, label_of, unverified, gzip_segment, trailer_matches, keep_gzip_member, on_trailer,
  on_outcome, on_header,
}
use veraqis_recover.Resync.GzipProven.{
  Proven-member, IsGzip, IsGzip-extend, warn-IsGzip, salvage_unverified-IsGzip,
}

matched :
    (flate : Flate) (bytes : Bytes) (trailer : ℕ × ℕ)
    → trailer_matches flate bytes trailer ≡ true
    → (flate.crc32 bytes ≡ trailer.0) × (length bytes % 2 ^ 32 ≡ trailer.1)
unfolding trailer_matches
matched flate bytes trailer h = ground arith

-- A step that gave a walk, which is as it should be.
pub record IsStep (flate : Flate) (input : Bytes) (step : Option GzipWalk) : Type 0 where
  pub walk : GzipWalk
  pub gives : step ≡ some walk
  pub kept : IsGzip flate input walk.result walk.cursor

module _ (flate : Flate) (input : Bytes) (next_start start hlen : ℕ) (walk : GzipWalk)
    (h : IsGzip flate input walk.result walk.cursor) (here : walk.cursor ≤ start)
    (fits : start + hlen ≤ next_start) (within : next_start ≤ length input) where
  unverified-IsStep :
      (message : Message) (inflated : Bytes)
      → IsStep flate input (unverified input next_start start (start + hlen) message inflated walk)
  unfolding unverified
  unverified-IsStep message inflated =
      rw (le→leb (start + hlen) next_start fits, le→leb next_start (length input) within)
        (record {
          walk = _;
          gives = refl;
          kept =
              salvage_unverified-IsGzip flate input start (start + hlen) inflated
                (slice (start + hlen) next_start input) _ next_start
                (warn-IsGzip flate input _ walk.result next_start
                  (IsGzip-extend flate input walk.result walk.cursor next_start h (omega arith)));
        })

  -- What the body inflates to.
  outcome : InflateOutcome
  outcome = inflate_member flate (drop (start + hlen) input)

  module _ (header : gz_header_len input start ≡ some hlen)
      (more : suc walk.result.members_verified ≤ walk.result.members_total) where
    keep-IsGzip :
        (trailer : ℕ × ℕ)
        → outcome.ok ≡ true
        → read_trailer input (start + hlen + outcome.consumed) ≡ some trailer
        → trailer_matches flate outcome.plain trailer ≡ true
        → IsGzip flate input
            (keep_gzip_member input start
              (start + hlen + outcome.consumed)
              outcome.plain
              walk).result
            (keep_gzip_member input start
              (start + hlen + outcome.consumed)
              outcome.plain
              walk).cursor
    unfolding keep_gzip_member push gzip_segment is_verified outcome
    keep-IsGzip trailer good read matches = record {
      members =
          Proven-member flate input 0 walk.cursor (start + hlen + outcome.consumed + 8)
            walk.result.segments
            (gzip_segment input start (start + hlen + outcome.consumed) (label_of walk.result)
              outcome.plain)
            h.members
            (record {
              hlen = hlen;
              trailer = trailer;
              header = header;
              inflates = good;
              body = refl;
              read = read;
              crc = (matched flate outcome.plain trailer matches).0;
              size = (matched flate outcome.plain trailer matches).1;
              ended = refl;
            })
            here (omega arith);
      tallied =
          push-IsTallied
            (gzip_segment input start (start + hlen + outcome.consumed) (label_of walk.result)
              outcome.plain)
            walk.result h.tallied;
      counted = more;
    }

    on_trailer-IsStep :
        (o : Option (ℕ × ℕ))
        → outcome.ok ≡ true
        → read_trailer input (start + hlen + outcome.consumed) ≡ o
        → IsStep flate input (on_trailer flate input next_start start (start + hlen) outcome o walk)
    unfolding on_trailer
    on_trailer-IsStep none good read = unverified-IsStep _ outcome.plain
    on_trailer-IsStep (some trailer) good read =
        elim (Bool-cases (trailer_matches flate outcome.plain trailer)) [
          | inl matches ↦
              simp matches
                (record { walk = _; gives = refl; kept = keep-IsGzip trailer good read matches })
          | inr differs ↦ simp differs (unverified-IsStep _ outcome.plain)
        ]

    on_outcome-IsStep :
        IsStep flate input (on_outcome flate input next_start start (start + hlen) outcome walk)
    unfolding on_outcome
    on_outcome-IsStep = elim (Bool-cases outcome.ok) [
      | inl good ↦ simp good (on_trailer-IsStep _ good refl)
      | inr bad ↦ simp bad (unverified-IsStep _ outcome.plain)
    ]

    pub on_header-IsStep :
        IsStep flate input (on_header flate input next_start start (some hlen) walk)
    unfolding on_header outcome
    on_header-IsStep = on_outcome-IsStep
