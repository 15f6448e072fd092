-- ===== src/Strategies/GzRuns.antt =====
-- The strategies of strategies/gz_restore.rs, over any source and sink.
use veraqis_recover.Prelude.{
  refl, ◌⊎◌, inl, inr, Option, none, some, [], Bytes, length, ltb, leb, ◌==◌, ◌-◌, take, Bool-cases,
}
use veraqis_recover.Prelude.Texts.{String}
use veraqis_recover.Prelude.Results.{ok}
use veraqis_recover.Recovery.Model.{empty, DataSource}
use veraqis_recover.Resync.Gzip.{Flate}
use veraqis_recover.Strategies.GzBody.{deflate_body, read_to_end, gz_body_start}
use veraqis_recover.Strategies.GzRestore.{
  magic_restore_result, apply_magic_restore, gz_magic_restore, trailer_written, inflated_body,
  trailer_recompute_result, apply_trailer_recompute, gz_trailer_recompute, partial_wrapped,
  with_magic, partial_inflate_result, apply_partial_inflate, gz_partial_inflate, with_trailer,
}
use veraqis_recover.Strategies.Behaves.{IsRun, extended, failed, Behaves, checked, unchanged}

module _ (source : DataSource) (sink : Bytes) where
  -- The strategies for GZIP.
  magic_extends :
      (input : Bytes) → IsRun sink "gz-magic-restore" (ok (magic_restore_result sink input))
  unfolding magic_restore_result empty
  magic_extends input = elim (Bool-cases (ltb (length input) 2)) [
    | inl short ↦ simp short (extended (unchanged sink "gz-magic-restore" _ refl))
    | inr long ↦
        simp long (extended (record { staged = with_magic input; written = refl; named = refl }))
  ]

  pub magic_checked : Behaves source sink gz_magic_restore
  unfolding gz_magic_restore apply_magic_restore
  magic_checked = checked source sink gz_magic_restore _ refl magic_extends

  module _ (flate : Flate) where
    written_extends :
        (input : Bytes) (inflated : Bytes × Option String)
        → IsRun sink "gz-trailer-recompute" (ok (trailer_written flate sink input inflated))
    unfolding trailer_written empty
    written_extends input (content, some error) =
        extended (unchanged sink "gz-trailer-recompute" _ refl)
    written_extends input (content, none) = extended (record {
      staged = with_trailer flate (take (length input - 8) input) content;
      written = refl;
      named = refl;
    })

    trailer_extends :
        (input : Bytes)
        → IsRun sink "gz-trailer-recompute" (ok (trailer_recompute_result flate sink input))
    unfolding trailer_recompute_result empty
    trailer_extends input = elim (Bool-cases (ltb (length input) 18)) [
      | inl short ↦ simp short (extended (unchanged sink "gz-trailer-recompute" _ refl))
      | inr long ↦ elim (Bool-cases (leb (length input - 8) (gz_body_start input))) [
        | inl hollow ↦ simp (long, hollow) (extended (unchanged sink "gz-trailer-recompute" _ refl))
        | inr full ↦ simp (long, full) (written_extends input (inflated_body flate input))
      ]
    ]

    pub trailer_checked : Behaves source sink (gz_trailer_recompute flate)
    unfolding gz_trailer_recompute apply_trailer_recompute
    trailer_checked = checked source sink (gz_trailer_recompute flate) _ refl trailer_extends

    wrapped_extends :
        (input : Bytes) (inflated : Bytes × Option String) (encoded : String ⊎ Bytes)
        → IsRun sink "gz-partial-inflate" (partial_wrapped sink input inflated encoded)
    unfolding partial_wrapped empty
    wrapped_extends input inflated (inl error) = failed error
    wrapped_extends input inflated (inr out) =
        extended (record { staged = out; written = refl; named = refl })

    inflate_extends :
        (input : Bytes) (inflated : Bytes × Option String)
        → IsRun sink "gz-partial-inflate" (partial_inflate_result flate sink input inflated)
    unfolding partial_inflate_result empty
    inflate_extends input inflated = elim (Bool-cases (length inflated.0 == 0)) [
      | inl nothing ↦ simp nothing (extended (unchanged sink "gz-partial-inflate" _ refl))
      | inr something ↦ simp something (wrapped_extends input inflated (flate.encode inflated.0))
    ]

    pub inflate_checked : Behaves source sink (gz_partial_inflate flate)
    unfolding gz_partial_inflate apply_partial_inflate
    inflate_checked =
        checked source sink (gz_partial_inflate flate) _ refl
          (λ input. inflate_extends input (read_to_end [] (flate.decoder (deflate_body input))))
