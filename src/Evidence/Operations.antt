-- ===== src/Evidence/Operations.antt =====
-- Every recording step of `MutableRunEvidence` and of its attempt-phase handles, as one type.
use cao.Shared.{ℕ, List, [], ◌∷◌, Option, none, some}
use cao.Routing.Kinds.{SkipReason}
use cao.Routing.Route.{RoutingLedger}
use cao.Run.Lifecycle.{
  RunPhase, PhaseSkipReason, RunProgress, RunDiagnostic, RunFailure, executed_record,
  skipped_record, planned_record,
}
use cao.Run.Results.{
  RunPreparation, ArchiveCollision, ArchiveExtractionResult, RoutedAssetAttempt,
  ArchiveFinalizationAttempt, ArchiveFinalizationAccount, PlannedArchiveExtraction,
  PlannedOutputArchive, OutputPlanBasis,
}
use cao.Evidence.Sinks.{
  Evidence, Sink, new_evidence, retain_diagnostic, publish_diagnostics, record_failure,
  retain_failure,
}
use cao.Evidence.Phases.{
  Step, record_phase, open_archive_extraction, open_archive_finalization, open_processing_assets,
}
use cao.Evidence.Facts.{
  record_preparation, record_archive_collisions, record_skipped_archive_counts,
  record_nested_archive_count, record_planned_extraction, record_output_plan_basis,
  record_planned_output, record_safety_cleanup_failure, record_cancellation_observation,
}
use cao.Evidence.Attempts.{
  extraction_attempt, asset_attempt, finalization_attempt, record_attempt_progress,
  plan_archive_finalization, finish_archive_finalization,
}

-- A record enters by one of its three constructors.
pub data Operation : Type 0 where
  executed_phase : RunPhase → Option RunProgress → Operation
  skipped_phase : RunPhase → PhaseSkipReason → Operation
  planned_phase : RunPhase → Operation
  open_extraction : ℕ → Operation
  open_finalization : Operation
  open_processing : RoutingLedger → Operation
  extraction : ArchiveExtractionResult → Operation
  asset : RoutedAssetAttempt → Operation
  output : ArchiveFinalizationAttempt → Operation
  plan : ℕ → Operation
  finish : ArchiveFinalizationAccount → Operation
  preparation : RunPreparation → Operation
  collisions : List ArchiveCollision → Operation
  skipped_counts : (SkipReason → ℕ) → Operation
  nested_count : ℕ → Operation
  planned_extraction : PlannedArchiveExtraction → Operation
  output_basis : OutputPlanBasis → Operation
  planned_output : PlannedOutputArchive → Operation
  cleanup_failure : RunFailure → Operation
  publish_failure : RunFailure → Operation
  keep_failure : RunFailure → Operation
  keep_diagnostic : RunDiagnostic → Operation
  publish_pending : Operation
  cancellation : Operation

-- A panic of the publication loop leaves the evidence.
abbrev pub or_same : Option Evidence → Evidence → Evidence
or_same none e = e
or_same (some e') e = e'

-- `record_diagnostic`
unfoldable pub record_diagnostic : RunDiagnostic → Evidence → Evidence
record_diagnostic d e = let kept = retain_diagnostic d e in or_same (publish_diagnostics kept) kept

unfoldable pub perform : Operation → Evidence → Step
perform (executed_phase p progress) e = record_phase (executed_record p progress) e
perform (skipped_phase p reason) e = record_phase (skipped_record p reason) e
perform (planned_phase p) e = record_phase (planned_record p) e
perform (open_extraction n) e = open_archive_extraction n e
perform open_finalization e = open_archive_finalization e
perform (open_processing l) e = open_processing_assets l e
perform (extraction a) e = record_attempt_progress extraction_attempt a e
perform (asset a) e = record_attempt_progress asset_attempt a e
perform (output a) e = record_attempt_progress finalization_attempt a e
perform (plan n) e = plan_archive_finalization n e
perform (finish a) e = finish_archive_finalization a e
perform (preparation p) e = record_preparation p e
perform (collisions cs) e = record_archive_collisions cs e
perform (skipped_counts f) e = record_skipped_archive_counts f e
perform (nested_count n) e = record_nested_archive_count n e
perform (planned_extraction x) e = record_planned_extraction x e
perform (output_basis b) e = record_output_plan_basis b e
perform (planned_output o) e = record_planned_output o e
perform (cleanup_failure f) e = record_safety_cleanup_failure f e
perform (publish_failure f) e = (record_failure f e, none)
perform (keep_failure f) e = (retain_failure f e, none)
perform (keep_diagnostic d) e = (retain_diagnostic d e, none)
perform publish_pending e = (or_same (publish_diagnostics e) e, none)
perform cancellation e = (record_cancellation_observation e, none)

-- What any sequence of steps makes of fresh evidence, refused steps included.
unfoldable pub perform_all : List Operation → Evidence → Evidence
perform_all [] e = e
perform_all (o ∷ os) e = perform_all os (perform o e).0

pub data Reached (sink : Option Sink) : Evidence → Type 0 where
  start : Reached sink (new_evidence sink)
  step : {e : Evidence} (o : Operation) → Reached sink e → Reached sink (perform o e).0
