-- ===== src/Recovery/Tests.antt =====
-- Runs of the engine of crates/phx_recovery/src/engine.rs on a truncated source, with four of the
-- strategies.
use veraqis_recover.Prelude.{
  ◌≡◌, ◌≢◌, ◌⊎◌, inl, refl, true, false, none, some, List, [], ◌∷◌, Bytes, All, take,
}
use mathlib.Core.List.{Perm}
use veraqis_recover.Prelude.Texts.{text_append, text_eq}
use veraqis_recover.Prelude.Results.{Result, ok, err}
use veraqis_recover.Recovery.Model.{
  tar, truncation, major, Corruption, AnalysisResult, RecoveryReport, RecoveryStrategy,
  RecoveryError, DataSource, filter, empty, read_all, plan_of, without_manifest,
}
use veraqis_recover.Recovery.Select.{
  select, select_automatic, select_damaged, some_or_abstain, applicable, sort_by_priority, insert,
}
use veraqis_recover.Recovery.Engine.{
  PassOutcome, run_passes, run_selected, run_strategies, after_stage, after_round, stage,
  note_staged, settle, keep_output, max_passes,
}
use veraqis_recover.Recovery.Verdict.{
  Services, RecoveryOptions, sha256, keep, verify, compare_expected, reanalyze_health, regressed,
  improved, held, report_is_terminal,
}
use veraqis_recover.Recovery.Gate.{IsKept, IsVerified}
use veraqis_recover.Recovery.Passes.{run_passes-IsKept}
use veraqis_recover.Recovery.Recover.{Storage, output_path_for, recover}
use veraqis_recover.Recovery.Writes.{IsWithin, IsRecovered, recover_writes}
use veraqis_recover.Recovery.Quiet.{IsQuiet, recover_quiet}
use veraqis_recover.Recovery.Order.{IsDescending, with_priority, select_ordered}
use veraqis_recover.Recovery.Stream.{
  recover_stream, analyze_stream, after_stream_passes, stream_out, stream_bytes,
}
use veraqis_recover.Recovery.Passthrough.{IsReturned, recover_stream_returns}
use veraqis_recover.Strategies.Verbatim.{
  verbatim, partial_extraction, tar_block_reorder, bit_flip_correction, iso_sector_reconstruction,
}

abbrev copying : List RecoveryStrategy
copying =
    bit_flip_correction ∷ tar_block_reorder ∷ partial_extraction ∷ iso_sector_reconstruction ∷ []

abbrev two_bytes : Bytes
two_bytes = 1 ∷ 2 ∷ []

abbrev cut_off : Corruption
cut_off = record {
  rule_id = "TAR_TERM_001";
  category = truncation;
  severity = major;
  byte_range = none;
}

abbrev damaged : AnalysisResult
damaged = record {
  archive_format = some tar;
  integrity_result = record {
    expected_hash = none;
    actual_hash = "h";
    matches = false;
    manifest_present = false;
  };
  corruptions = cut_off ∷ [];
  health_score = 40;
}

abbrev services : Services
services = record { analyze = λ path bytes label. ok damaged; hash = λ type_ bytes. ok "h" }

abbrev options : RecoveryOptions
options = record {
  output_dir = "out";
  forced_strategy = none;
  aggressive = false;
  dry_run = false;
  hash_type = sha256;
  write_manifest = true;
  sign_key = none;
  tool_name = "phx";
}

abbrev source : DataSource
source = record { path = "a.tar"; len = 2; content = some two_bytes }

abbrev storage : Storage
storage = record {
  open_source = λ path. some source;
  canonicalize = λ path. none;
  path_eq = λ a b. text_eq a b;
  file_name = λ path. some path;
  join = λ folder name. text_append folder (text_append "/" name);
  parent = λ path. some "out";
  can_create_dir = λ path. true;
  can_write = λ path. true;
  manifest_text = λ from to before after plans report verified opts. [];
}

abbrev selected : List RecoveryStrategy
selected = partial_extraction ∷ []

selected-damaged : select copying damaged none ≡ ok selected
unfolding select select_automatic select_damaged some_or_abstain applicable sort_by_priority insert
    filter bit_flip_correction tar_block_reorder partial_extraction iso_sector_reconstruction
selected-damaged = refl

select_ordered_example :
    (damaged.corruptions ≢ [])
    × (selected ≢ [])
    × Perm selected (filter (λ s. s.can_apply damaged) copying)
    × IsDescending selected
    × (with_priority 30 selected ≡ with_priority 30 (filter (λ s. s.can_apply damaged) copying))
select_ordered_example = select_ordered copying damaged selected 30 selected-damaged

salvaged : PassOutcome
salvaged = record {
  bytes = some two_bytes;
  kept_plans = plan_of partial_extraction damaged;
  output_verified = false;
}

aggregate : RecoveryReport
aggregate = empty "out"

report : RecoveryReport
report = (run_passes services copying source damaged options "out" aggregate).1

passes_end :
    run_passes services copying source damaged options "out" aggregate ≡ (ok salvaged, report)
unfolding report salvaged run_passes select select_automatic select_damaged some_or_abstain
    applicable sort_by_priority insert filter bit_flip_correction tar_block_reorder
    partial_extraction iso_sector_reconstruction run_selected run_strategies after_stage after_round
    stage note_staged settle keep keep_output verify compare_expected without_manifest
    reanalyze_health regressed improved held report_is_terminal verbatim read_all
passes_end = refl

salvaged_bytes : salvaged.bytes ≡ some two_bytes
unfolding salvaged
salvaged_bytes = refl

run_passes-IsKept_example :
    (chosen : List RecoveryStrategy) × (select copying damaged none ≡ ok chosen)
    × IsKept services source damaged options "out" (take max_passes chosen) two_bytes
    × ((salvaged.output_verified ≡ false) ⊎ IsVerified services damaged options two_bytes)
run_passes-IsKept_example =
    run_passes-IsKept services copying source damaged options "out" aggregate salvaged report
      two_bytes passes_end salvaged_bytes

recover_writes_example :
    All
      (IsWithin
        (IsRecovered storage services copying "a.tar" damaged options)
        storage
        (output_path_for storage "a.tar" options))
      (recover storage services copying "a.tar" damaged options).1
recover_writes_example = recover_writes storage services copying "a.tar" damaged options

abbrev dry_options : RecoveryOptions
dry_options = record options { dry_run = true }

dry-IsQuiet : IsQuiet damaged dry_options
unfolding IsQuiet
dry-IsQuiet = inl refl

recover_quiet_example : (recover storage services copying "a.tar" damaged dry_options).1 ≡ []
recover_quiet_example =
    recover_quiet storage services copying "a.tar" damaged dry_options dry-IsQuiet

-- The report of a stream recovery that succeeds.
stream_report : Result RecoveryError (Bytes × RecoveryReport) → RecoveryReport
stream_report (ok (bytes, made)) = made
stream_report (err e) = empty ""

returned : RecoveryReport
returned = stream_report (recover_stream services copying two_bytes "stream.tar" options)

stream_end :
    recover_stream services copying two_bytes "stream.tar" options ≡ ok (two_bytes, returned)
unfolding returned stream_report recover_stream analyze_stream after_stream_passes stream_out
    stream_bytes run_passes select select_automatic select_damaged some_or_abstain applicable
    sort_by_priority insert filter bit_flip_correction tar_block_reorder partial_extraction
    iso_sector_reconstruction run_selected run_strategies after_stage after_round stage note_staged
    settle keep keep_output verify compare_expected without_manifest reanalyze_health regressed
    improved held report_is_terminal verbatim read_all
stream_end = refl

recover_stream_returns_example :
    (analysis : AnalysisResult) × (services.analyze "stream.tar" two_bytes "stream.tar"
      ≡ ok analysis)
    × IsReturned services copying two_bytes "stream.tar" options analysis two_bytes
recover_stream_returns_example =
    recover_stream_returns services copying two_bytes "stream.tar" options two_bytes returned
      stream_end
