-- ===== src/Resync/GzipSalvage.antt =====
-- What crates/phx_recovery/src/resync/gzip.rs gives back for a stream.
use veraqis_recover.Prelude.{
  ℕ, suc, ◌≤◌, ◌≡◌, refl, true, inl, inr, Option, none, some, List, [], ◌∷◌, Bytes, ltb, leb→le,
  ltb_false→le, ◌==◌, length, arith, Bool-cases,
}
use veraqis_recover.Resync.{Segment, SalvageResult, new, verified_payload}
use veraqis_recover.Resync.Tallies.{IsTallied, new-IsTallied}
use veraqis_recover.Resync.Gzip.{Flate, member_starts, gz_header_len}
use veraqis_recover.Resync.GzipWalk.{
  GzipWalk, on_header, count_start, on_start, next_or, gzip_loop, close_gzip, salvage_from,
  salvage_gzip,
}
use veraqis_recover.Resync.GzipProven.{Proven, IsGzip, IsGzip-extend, warn-IsGzip}
use veraqis_recover.Resync.GzipSteps.{IsStep, on_header-IsStep}
use veraqis_recover.Resync.GzipStarts.{
  header_fits, headers_apart, Ascending, member_starts-Ascending, next_or-bounds,
}

module _ (flate : Flate) (input : Bytes) where
  count_start-IsGzip :
      (walk : GzipWalk)
      → IsGzip flate input walk.result walk.cursor
      → IsGzip flate input (count_start walk).result (count_start walk).cursor
  unfolding count_start verified_payload
  count_start-IsGzip walk h = record {
    members = h.members;
    tallied = record {
      bytes = h.tallied.bytes;
      members = h.tallied.members;
      others = h.tallied.others;
    };
    counted = omega (arith, h.counted);
  }

  any_header-IsStep :
      (next_start start : ℕ) (o : Option ℕ) (walk : GzipWalk)
      → IsGzip flate input walk.result walk.cursor
      → walk.cursor ≤ start
      → start ≤ next_start
      → next_start ≤ length input
      → header_fits next_start start o ≡ true
      → suc walk.result.members_verified ≤ walk.result.members_total
      → gz_header_len input start ≡ o
      → IsStep flate input (on_header flate input next_start start o walk)
  unfolding header_fits
  any_header-IsStep next_start start (some hlen) walk h here l within fits more header =
      on_header-IsStep flate input next_start start hlen walk h here (leb→le _ _ fits) within header
        more
  any_header-IsStep next_start start none walk h here l within fits more header =
      unfold on_header in
      record {
        walk = _;
        gives = refl;
        kept =
            warn-IsGzip flate input _ walk.result next_start
              (IsGzip-extend flate input walk.result walk.cursor next_start h (omega arith));
      }

  on_start-IsStep :
      (next_start start : ℕ) (walk : GzipWalk)
      → IsGzip flate input walk.result walk.cursor
      → start ≤ next_start
      → next_start ≤ length input
      → header_fits next_start start (gz_header_len input start) ≡ true
      → IsStep flate input (on_start flate input next_start start walk)
  unfolding on_start
  on_start-IsStep next_start start walk h l within fits =
      elim (Bool-cases (ltb start walk.cursor)) [
        | inl inside ↦ simp inside (record { walk = walk; gives = refl; kept = h })
        | inr outside ↦ simp outside (
            any_header-IsStep next_start start (gz_header_len input start) (count_start walk)
              (count_start-IsGzip walk h) (unfold count_start in ltb_false→le _ _ outside) l within
              fits (unfold count_start in omega (arith, h.counted)) refl)
      ]

  gzip_loop-IsStep :
      (from : ℕ) (starts : List ℕ) (walk : GzipWalk)
      → IsGzip flate input walk.result walk.cursor
      → Ascending input from starts
      → headers_apart input starts ≡ true
      → IsStep flate input (gzip_loop flate input starts walk)
  unfolding gzip_loop headers_apart Ascending
  gzip_loop-IsStep from [] walk h a fits = record { walk = walk; gives = refl; kept = h }
  gzip_loop-IsStep from (s ∷ starts) walk h a fits =
      let bounds = next_or-bounds input s starts a.1 a.2 in
      let step =
        on_start-IsStep (next_or (length input) starts) s walk h bounds.0 bounds.1
          (ground (arith, fits)) in
      rw step.gives (gzip_loop-IsStep (suc s) starts step.walk step.kept a.2 (ground (arith, fits)))

  Proven-within :
      (from to : ℕ) (ss : List Segment)
      → Proven flate input from ss to
      → from ≤ length input
      → Proven flate input from ss (length input)
  unfolding Proven
  Proven-within from to [] h l = l
  Proven-within from to (s ∷ ss) (inl h) l = inl (h.0, Proven-within from to ss h.1 l)
  Proven-within from to (s ∷ ss) (inr h) l =
      inr (h.0, h.1, Proven-within s.source_end to ss h.2 (omega (arith, h.0.ended)))

  -- A salvage that returned: its verified segments are members of the input, in order and apart.
  pub record IsGzipSalvage (salvage : Option SalvageResult) : Type 0 where
    pub result : SalvageResult
    pub gives : salvage ≡ some result
    pub members : Proven flate input 0 result.segments (length input)
    pub tallied : IsTallied result
    pub counted : result.members_verified ≤ result.members_total

  close_gzip-IsGzip :
      (walk : GzipWalk)
      → IsGzip flate input walk.result walk.cursor
      → IsGzip flate input (close_gzip walk) walk.cursor
  unfolding close_gzip
  close_gzip-IsGzip walk h = elim (Bool-cases (walk.result.members_verified == 0)) [
    | inl nothing ↦ simp nothing (warn-IsGzip flate input _ walk.result walk.cursor h)
    | inr something ↦ simp something h
  ]

  new-IsGzip : IsGzip flate input (new "gzip") 0
  unfolding new Proven
  new-IsGzip = record {
    members = omega arith;
    tallied = new-IsTallied "gzip";
    counted = omega arith;
  }

  returned :
      (salvage : Option SalvageResult) (result : SalvageResult) (cursor : ℕ)
      → salvage ≡ some result
      → IsGzip flate input result cursor
      → IsGzipSalvage salvage
  returned salvage result cursor e h = record {
    result = result;
    gives = e;
    members = Proven-within 0 cursor result.segments h.members (omega arith);
    tallied = h.tallied;
    counted = h.counted;
  }

  salvage_from-IsGzipSalvage :
      (starts : List ℕ)
      → Ascending input 0 starts
      → headers_apart input starts ≡ true
      → IsGzipSalvage (salvage_from flate input starts)
  unfolding salvage_from
  salvage_from-IsGzipSalvage [] a fits =
      returned _ _ 0 refl (warn-IsGzip flate input _ (new "gzip") 0 new-IsGzip)
  salvage_from-IsGzipSalvage (s ∷ starts) a fits =
      let step =
        gzip_loop-IsStep 0 (s ∷ starts) (record { result = new "gzip"; cursor = 0 }) new-IsGzip a
          fits in
      returned _ (close_gzip step.walk) step.walk.cursor (rw step.gives refl)
        (close_gzip-IsGzip step.walk step.kept)

  -- If no header of a member runs into the next start, the salvage of a GZIP stream returns. Its
  -- verified segments are in order and apart, and each is a member of the input: its body inflates to
  -- the bytes, and the trailer has their CRC-32 and their length. The tallies are those of the
  -- segments, and no more members are verified than were met. The inflater and the CRC-32 are any.
  pub salvage_gzip-IsGzipSalvage :
      headers_apart input (member_starts input) ≡ true → IsGzipSalvage (salvage_gzip flate input)
  unfolding salvage_gzip
  salvage_gzip-IsGzipSalvage fits =
      salvage_from-IsGzipSalvage (member_starts input) (member_starts-Ascending input) fits
