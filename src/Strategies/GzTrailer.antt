-- ===== src/Strategies/GzTrailer.antt =====
-- The trailer that strategies/gz_restore.rs writes.
use veraqis_recover.Prelude.{
  ℕ, ◌+◌, ◌-◌, ◌%◌, ◌^◌, ◌≤◌, ◌<◌, ◌≡◌, refl, sym, ap, ap₂, ◌∙◌, ◌⊎◌, inl, inr, true, false, Option,
  none, some, [], ◌++◌, append-nil, Bytes, to_le_bytes, from_le_bytes-to_le_bytes, ltb, leb, le→leb,
  ltb_false→le, length, length-append, length-take, take, take-front, slice, slice_at, arith,
  Bool-cases,
}
use veraqis_recover.Prelude.Texts.{String}
use veraqis_recover.Prelude.Results.{ok}
use veraqis_recover.Recovery.Model.{RecoveryReport, empty, DataSource, read_all}
use veraqis_recover.Resync.Gzip.{Flate, read_trailer}
use veraqis_recover.Strategies.GzBody.{gz_body_start}
use veraqis_recover.Strategies.GzRestore.{
  with_trailer, trailer_written, inflated_body, trailer_recompute_result, apply_trailer_recompute,
}

-- The stream before its trailer is kept, and the trailer is that of the content.
pub record IsRetrailed (flate : Flate) (input content staged : Bytes) : Type 0 where
  pub same_length : length staged ≡ length input
  pub front : take (length input - 8) staged ≡ take (length input - 8) input
  pub trailer :
      read_trailer staged (length input - 8) ≡ some (flate.crc32 content, length content % 2 ^ 32)

trailer_read :
    (front : Bytes) (crc size : ℕ)
    → crc < 2 ^ 32
    → size < 2 ^ 32
    → read_trailer (front ++ (to_le_bytes 4 crc ++ to_le_bytes 4 size)) (length front)
      ≡ some (crc, size)
unfolding read_trailer
trailer_read front crc size h k =
    let words = to_le_bytes 4 crc ++ to_le_bytes 4 size in
    let whole : slice (length front) (length front + 8) (front ++ words) ≡ words =
      ap (λ (t : Bytes). slice (length front) (length front + 8) (front ++ t))
        (sym (append-nil words))
      ∙ slice_at (length front) (length front + 8) front words [] refl refl in
    rw
      (
        le→leb (length front) (length front + 8) (omega arith),
        le→leb (length front + 8) (length (front ++ words))
            (omega (arith, length-append front words)),
        whole,
      )
      (ap₂ (λ (a b : ℕ). some (a, b)) (from_le_bytes-to_le_bytes 4 crc (omega (arith, h)))
        (from_le_bytes-to_le_bytes 4 size (omega (arith, k))))

with_trailer-IsRetrailed :
    (flate : Flate) (input content : Bytes)
    → flate.crc32 content < 2 ^ 32
    → 18 ≤ length input
    → IsRetrailed flate input content (with_trailer flate (take (length input - 8) input) content)
unfolding with_trailer
with_trailer-IsRetrailed flate input content small long =
    let front = take (length input - 8) input in
    let crc = to_le_bytes 4 (flate.crc32 content) in
    let size = to_le_bytes 4 (length content % 2 ^ 32) in
    let cut : length front ≡ length input - 8 =
      omega (arith, length-take (length input - 8) input) in
    let eight : length (crc ++ size) ≡ 8 = omega (arith, length-append crc size) in
    let total : length (front ++ (crc ++ size)) ≡ length input =
      omega (arith, length-append front (crc ++ size), cut, eight, long) in
    record {
      same_length = total;
      front = take-front front (crc ++ size) cut;
      trailer =
          ap (read_trailer (front ++ (crc ++ size))) (sym cut)
          ∙ trailer_read front (flate.crc32 content) (length content % 2 ^ 32) small (omega arith);
    }

-- What is staged behind the sink, and what the report says: nothing and no success, or the input with
-- the trailer of what its body inflates to.
pub record IsTrailerOutcome (flate : Flate) (sink input : Bytes) (out : Bytes × RecoveryReport)
    : Type 0 where
  pub staged : Bytes
  pub written : out.0 ≡ sink ++ staged
  pub outcome :
      ((staged ≡ []) × (out.1.success ≡ false))
      ⊎ (((inflated_body flate input).1 ≡ none)
          × IsRetrailed flate input (inflated_body flate input).0 staged
          × (out.1.success ≡ true))

trailer_written-IsTrailerOutcome :
    (flate : Flate) (sink input : Bytes) (inflated : Bytes × Option String)
    → inflated_body flate input ≡ inflated
    → flate.crc32 inflated.0 < 2 ^ 32
    → 18 ≤ length input
    → IsTrailerOutcome flate sink input (trailer_written flate sink input inflated)
unfolding trailer_written empty
trailer_written-IsTrailerOutcome flate sink input (content, some error) same small long = record {
  staged = [];
  written = sym (append-nil sink);
  outcome = inl (refl, refl);
}
trailer_written-IsTrailerOutcome flate sink input (content, none) same small long = record {
  staged = with_trailer flate (take (length input - 8) input) content;
  written = refl;
  outcome = inr (rw same (refl, with_trailer-IsRetrailed flate input content small long, refl));
}

result-IsTrailerOutcome :
    (flate : Flate) (sink input : Bytes)
    → flate.crc32 (inflated_body flate input).0 < 2 ^ 32
    → IsTrailerOutcome flate sink input (trailer_recompute_result flate sink input)
unfolding trailer_recompute_result empty
result-IsTrailerOutcome flate sink input small = elim (Bool-cases (ltb (length input) 18)) [
  | inl short ↦
      simp short
        (record { staged = []; written = sym (append-nil sink); outcome = inl (refl, refl) })
  | inr long ↦ elim (Bool-cases (leb (length input - 8) (gz_body_start input))) [
    | inl hollow ↦
        simp (long, hollow)
          (record { staged = []; written = sym (append-nil sink); outcome = inl (refl, refl) })
    | inr full ↦
        simp (long, full)
          (trailer_written-IsTrailerOutcome flate sink input (inflated_body flate input) refl small
            (ltb_false→le _ _ long))
  ]
]

-- The trailer strategy, on a source that can be read, stages nothing and reports no success, or its
-- body inflates without an error, and it stages the input with another trailer: the CRC-32 and the
-- length of what the body inflates to are read back from it. The CRC-32 of the content is a u32.
pub apply_trailer_recompute_retrails :
    (flate : Flate) (source : DataSource) (sink input : Bytes)
    → source.content ≡ some input
    → flate.crc32 (inflated_body flate input).0 < 2 ^ 32
    → (out : Bytes × RecoveryReport) × (apply_trailer_recompute flate source sink ≡ ok out)
      × IsTrailerOutcome flate sink input out
unfolding apply_trailer_recompute read_all
apply_trailer_recompute_retrails flate source sink input e small = (
  trailer_recompute_result flate sink input,
  rw e refl,
  result-IsTrailerOutcome flate sink input small,
)
