-- ===== src/Strategies/ForensicCarve.antt =====
-- strategies/forensic_carve.rs: regions that begin with a known signature.
use veraqis_recover.Prelude.{
  ℕ, zero, suc, ◌+◌, ◌-◌, ◌/◌, ◌%◌, ◌^◌, max, Bool, true, false, ◌&&◌, ◌||◌, Option, none, some,
  List, [], ◌∷◌, ◌++◌, Bytes, if◌then◌else◌, ltb, leb, ◌==◌, any, length, slice,
}
use veraqis_recover.Prelude.Texts.{String, text_append}
use veraqis_recover.Prelude.Results.{Result, ok, ◌>>=◌}
use veraqis_recover.Recovery.Model.{
  ArchiveFormat, raw, catastrophic, Severity, benign, minor, major, RecoveryError, RecoveryReport,
  RecoveryStrategy, number, text, plain, lossy, DataSource, read_all,
}
use veraqis_recover.Strategies.Common.{is_format, started}

pub record Signature : Type 0 where
  pub label : String
  pub magic : Bytes

abbrev pub signatures : List Signature
signatures =
    record { label = "zip"; magic = b'P' ∷ b'K' ∷ 3 ∷ 4 ∷ [] }
    ∷ record { label = "png"; magic = 0x89 ∷ b'P' ∷ b'N' ∷ b'G' ∷ 0x0D ∷ 0x0A ∷ 0x1A ∷ 0x0A ∷ [] }
    ∷ record { label = "jpg"; magic = 0xFF ∷ 0xD8 ∷ 0xFF ∷ [] }
    ∷ record { label = "pdf"; magic = b'%' ∷ b'P' ∷ b'D' ∷ b'F' ∷ b'-' ∷ [] }
    ∷ record { label = "gzip"; magic = 0x1F ∷ 0x8B ∷ [] }
    ∷ record { label = "elf"; magic = 0x7F ∷ b'E' ∷ b'L' ∷ b'F' ∷ [] }
    ∷ []

-- `bytes.starts_with(magic)`.
unfoldable pub begins : Bytes → Bytes → Bool
begins [] bytes = true
begins (m ∷ magic) [] = false
begins (m ∷ magic) (b ∷ bytes) = m == b && begins magic bytes

abbrev pub Hit : Type 0
Hit = ℕ × String

-- The inner loop, at offset `i` with the bytes from there on.
unfoldable pub hits_at : ℕ → Bytes → List Signature → List Hit
hits_at i bytes [] = []
hits_at i bytes (sig ∷ sigs) =
    let rest = hits_at i bytes sigs in
    if begins sig.magic bytes then (i, sig.label) ∷ rest else rest

unfoldable pub hits_from : ℕ → Bytes → List Hit
hits_from i [] = []
hits_from i (b ∷ bytes) = hits_at i (b ∷ bytes) signatures ++ hits_from (suc i) bytes

-- `sort_by_key(|(o, _)| *o)`, which is stable.
unfoldable pub insert_hit : Hit → List Hit → List Hit
insert_hit hit [] = hit ∷ []
insert_hit hit (other ∷ hits) =
    let rest = insert_hit hit hits in if leb hit.0 other.0 then hit ∷ other ∷ hits else other ∷ rest

unfoldable pub sort_hits : List Hit → List Hit
sort_hits [] = []
sort_hits (hit ∷ hits) = insert_hit hit (sort_hits hits)

unfoldable pub scan_signatures : Bytes → List Hit
scan_signatures input = sort_hits (hits_from 0 input)

-- `hits.get(i + 1)`, or the end.
unfoldable pub region_end : ℕ → List Hit → ℕ
region_end end [] = end
region_end end (hit ∷ hits) = hit.0

digit_text : ℕ → String
digit_text d =
    if d == 0
    then "0"
    else if d == 1
    then "1"
    else if d == 2
    then "2"
    else if d == 3
    then "3"
    else if d == 4
    then "4"
    else if d == 5
    then "5"
    else if d == 6
    then "6"
    else if d == 7
    then "7"
    else if d == 8
    then "8"
    else "9"

decimal_width : ℕ → ℕ → ℕ
decimal_width zero n = 0
decimal_width (suc fuel) n =
    let rest = decimal_width fuel (n / 10) in if n == 0 then 0 else suc rest

decimal_fixed : ℕ → ℕ → String
unfolding digit_text
decimal_fixed zero n = ""
decimal_fixed (suc w) n = text_append (digit_text (n / 10 ^ w % 10)) (decimal_fixed w n)

-- `{i:04}`: four digits at least; a number has at most as many as it counts.
unfoldable pub decimal_text : ℕ → String
unfolding decimal_fixed decimal_width
decimal_text n = decimal_fixed (max 4 (decimal_width n n)) n

unfoldable pub carved_name : ℕ → String → String
carved_name i label = text_append "carved-" (text_append (decimal_text i) (text_append "." label))

-- The `for` loop over the hits, from the `i`th on: the bytes, their count and the names.
unfoldable pub carve : Bytes → ℕ → List Hit → Bytes × ℕ × List String
carve input i [] = ([], 0, [])
carve input i (hit ∷ hits) =
    let end = region_end (length input) hits in
    let (bytes, carved, names) = carve input (suc i) hits in
    (slice hit.0 end input ++ bytes, (end - hit.0) + carved, carved_name i hit.1 ∷ names)

unfoldable pub carve_result : DataSource → Bytes → Bytes → List Hit → Bytes × RecoveryReport
carve_result source sink input [] = (
  sink,
  record (started "forensic-carve") {
    warnings = plain "no known file signatures found to carve" ∷ [];
  },
)
carve_result source sink input (hit ∷ hits) =
    let (bytes, carved, names) = carve input 0 (hit ∷ hits) in
    (
      sink ++ bytes,
      record (started "forensic-carve") {
        files_recovered = names;
        bytes_recovered = carved;
        bytes_lost = source.len - carved;
        success = ltb 0 carved;
        warnings =
            (text "carved " ∷ number (length (hit ∷ hits)) ∷ text " region(s) by signature" ∷ [])
            ∷ [];
      },
    )

unfoldable pub apply_carve : DataSource → Bytes → Result RecoveryError (Bytes × RecoveryReport)
apply_carve source sink = do
  input ← read_all source
  ok (carve_result source sink input (scan_signatures input))

abbrev is_catastrophic : Severity → Bool
is_catastrophic catastrophic = true
is_catastrophic benign = false
is_catastrophic minor = false
is_catastrophic major = false

abbrev is_none : Option ArchiveFormat → Bool
is_none none = true
is_none (some format) = false

-- `handles` and `predicted_outcome` are the trait's.
unfoldable pub forensic_carving : RecoveryStrategy
forensic_carving = record {
  name = "forensic-carve";
  technique = "ForensicCarve";
  risk = lossy;
  handles = λ c. false;
  predicted_outcome = λ c. text "apply ForensicCarve to " ∷ text c.rule_id ∷ [];
  can_apply = λ result.
      (is_format raw result || is_none result.archive_format)
      && (any (λ c. is_catastrophic c.severity) result.corruptions
          || length result.corruptions == 0);
  priority = 10;
  apply = apply_carve;
}
