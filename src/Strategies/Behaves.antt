-- ===== src/Strategies/Behaves.antt =====
-- What every strategy of crates/phx_recovery/src/strategies does with its source and its sink.
use veraqis_recover.Prelude.{
  ◌≡◌, refl, sym, ◌∙◌, ◌⊎◌, inl, inr, none, some, [], ◌∷◌, ◌++◌, append-nil, Bytes, Option-cases,
}
use veraqis_recover.Prelude.Texts.{String}
use veraqis_recover.Prelude.Results.{Result, ok, err, ◌>>=◌}
use veraqis_recover.Recovery.Model.{
  RecoveryError, io, strategy_failed, RecoveryReport, RecoveryStrategy, DataSource, read_all,
}

-- A result that only adds to the sink, and is reported under the strategy's name and no other.
pub record IsExtension (sink : Bytes) (name : String) (out : Bytes × RecoveryReport) : Type 0 where
  pub staged : Bytes
  pub written : out.0 ≡ sink ++ staged
  pub named : out.1.strategies_applied ≡ name ∷ []

-- A run that gave an extension, or failed under the strategy's name.
pub data IsRun (sink : Bytes) (name : String)
    : Result RecoveryError (Bytes × RecoveryReport) → Type 0 where
  extended : {out : Bytes × RecoveryReport} → IsExtension sink name out → IsRun sink name (ok out)
  failed : (reason : String) → IsRun sink name (err (strategy_failed name reason))

-- A source that cannot be read is an input error; the run on one that can be read is one of these.
unfoldable pub Behaves : DataSource → Bytes → RecoveryStrategy → Type 0
Behaves source sink s =
    ((source.content ≡ none) × (s.apply source sink ≡ err (io source.path)))
    ⊎ (((input : Bytes) × (source.content ≡ some input)) × IsRun sink s.name (s.apply source sink))

pub checked :
    (source : DataSource) (sink : Bytes) (s : RecoveryStrategy)
    (run : Bytes → Result RecoveryError (Bytes × RecoveryReport))
    → s.apply source sink ≡ (read_all source >>= run)
    → ((input : Bytes) → IsRun sink s.name (run input))
    → Behaves source sink s
unfolding Behaves read_all
checked source sink s run same runs = elim (Option-cases source.content) [
  | inl lost ↦ inl (lost, same ∙ rw lost refl)
  | inr found ↦ inr (found, rw (same, found.1) (runs found.0))
]

pub unchanged :
    (sink : Bytes) (name : String) (report : RecoveryReport)
    → report.strategies_applied ≡ name ∷ []
    → IsExtension sink name (sink, report)
unchanged sink name report e = record { staged = []; written = sym (append-nil sink); named = e }
