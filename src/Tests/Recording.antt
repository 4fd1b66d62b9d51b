-- ===== src/Tests/Recording.antt =====
-- A run of recording steps: an extraction of two Archives, with one attempt recorded.
use cao.Shared.{true, [], ◌∷◌, none, some, is_some, codes, length, ◌≡◌, refl}
use cao.Shared.Paths.{FilePath, normal}
use cao.Run.Attempt.{success, CompletedMutation}
use cao.Run.Lifecycle.{preparing, ignored_mod_excluded, diagnostic}
use cao.Run.Results.{ArchiveExtractionResult, MutationKind}
use cao.Evidence.Storage.{find_phase}
use cao.Evidence.Sinks.{Evidence, new_evidence, publish_diagnostics, publish}
use cao.Evidence.Phases.{accept_phase, record_phase, open_attempt_phase, open_archive_extraction}
use cao.Evidence.Seal.{derive_mutation_summaries, effects}
use cao.Evidence.Operations.{
  executed_phase, open_extraction, extraction, keep_diagnostic, perform, Reached, start, step,
}
use cao.Evidence.Preserved.{IsSound}
use cao.Evidence.Counting.{Recorded, attempts-Recorded}
use cao.Run.Results.{RoutedAssetAttempt, ArchiveFinalizationAttempt}
use cao.Routing.Kinds.{OptimizerTarget, ExecutionMode, loose_asset_processing, native}
use cao.Routing.Route.{AssetIdentity}
use cao.Run.Lifecycle.{extracting_archives, processing_assets, archive_finalization}
use cao.Run.Attempt.{succeeded}
use cao.Evidence.Attempts.{streamed}
use cao.Evidence.Operations.{asset, output}
use cao.Evidence.Soundness.{Reached-IsSound}
use cao.Evidence.Refusals.{perform-refused}
use cao.Evidence.Summaries.{
  committed_in, partial_in, committed_of, partial_of, derive_mutation_summaries_lem,
}
use cao.Evidence.Ascending.{Ascending, derive_mutation_summaries-Ascending}
use cao.Evidence.Total.{publish_diagnostics_total}

abbrev mod_root : FilePath
mod_root = normal (codes "mods") ∷ []

abbrev attempt : ArchiveExtractionResult
attempt = record {
  archive_path = normal (codes "a.bsa") ∷ [];
  mod_root = mod_root;
  outcome = success CompletedMutation.committed;
}

abbrev prepared : Evidence
prepared = (perform (executed_phase preparing none) (new_evidence none)).0

abbrev opened : Evidence
opened = (perform (open_extraction 2) prepared).0

abbrev attempted : Evidence
attempted = (perform (extraction attempt) opened).0

abbrev opened-Reached : Reached none opened
opened-Reached = step (open_extraction 2) (step (executed_phase preparing none) start)

abbrev attempted-Reached : Reached none attempted
attempted-Reached = step (extraction attempt) opened-Reached

Reached-IsSound_example : IsSound attempted.storage
Reached-IsSound_example = Reached-IsSound none attempted attempted-Reached

reopens : is_some (perform (open_extraction 3) opened).1 ≡ true
unfolding perform open_archive_extraction open_attempt_phase find_phase record_phase accept_phase
    publish
reopens = refl

perform-refused_example : (perform (open_extraction 3) opened).0 ≡ opened
perform-refused_example = perform-refused none opened (open_extraction 3) opened-Reached reopens

abbrev opened-IsSound : IsSound opened.storage
opened-IsSound = Reached-IsSound none opened opened-Reached

abbrev texture_attempt : RoutedAssetAttempt
texture_attempt = record {
  mod_root = mod_root;
  asset = record {
    execution_path = normal (codes "a.dds") ∷ [];
    identity = AssetIdentity.texture native;
    phase = loose_asset_processing;
    target = OptimizerTarget.texture;
    execution_mode = ExecutionMode.apply;
    operations = λ o. true;
  };
  result = record {
    outcome = success CompletedMutation.committed;
    path = normal (codes "a.dds") ∷ [];
    operation = [];
    service_detail = [];
    cleanup_failures = [];
  };
}

abbrev packing_attempt : ArchiveFinalizationAttempt
packing_attempt = record {
  archive_path = normal (codes "b.bsa") ∷ [];
  mod_root = mod_root;
  outcome = success CompletedMutation.committed;
}

attempts-Recorded_example :
    Recorded extracting_archives
      (λ s. s.archive_extraction_attempts)
      attempt
      (succeeded attempt.outcome)
      opened
      (perform (extraction attempt) opened)
    × Recorded processing_assets
        (λ s. s.asset_attempts)
        texture_attempt
        (succeeded texture_attempt.result.outcome)
        opened
        (perform (asset texture_attempt) opened)
    × Recorded archive_finalization
        (λ s. streamed s.archive_finalization)
        packing_attempt
        (succeeded packing_attempt.outcome)
        opened
        (perform (output packing_attempt) opened)
attempts-Recorded_example =
    attempts-Recorded attempt texture_attempt packing_attempt opened opened-IsSound

derive_mutation_summaries_example :
    let s = attempted.storage in
    (committed_in mod_root MutationKind.archive_extraction (derive_mutation_summaries s)
      ≡ committed_of mod_root MutationKind.archive_extraction (effects s))
    × (partial_in mod_root MutationKind.archive_extraction (derive_mutation_summaries s)
        ≡ partial_of mod_root MutationKind.archive_extraction (effects s))
derive_mutation_summaries_example =
    derive_mutation_summaries_lem mod_root MutationKind.archive_extraction attempted.storage

derive_mutation_summaries-Ascending_example :
    Ascending (derive_mutation_summaries attempted.storage)
derive_mutation_summaries-Ascending_example = derive_mutation_summaries-Ascending attempted.storage

abbrev diagnosed : Evidence
diagnosed =
    (perform (keep_diagnostic (diagnostic ignored_mod_excluded preparing (codes "ignored")))
      opened).0

abbrev diagnosed-Reached : Reached none diagnosed
diagnosed-Reached =
    step (keep_diagnostic (diagnostic ignored_mod_excluded preparing (codes "ignored")))
      opened-Reached

publish_diagnostics_example :
    (e : Evidence) × (publish_diagnostics diagnosed ≡ some e)
    × (e.published_diagnostics ≡ length e.diagnostic_publications)
publish_diagnostics_example = publish_diagnostics_total none diagnosed diagnosed-Reached
