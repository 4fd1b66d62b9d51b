-- ===== src/Work/DryRun/Recording.antt =====
-- The recording loops of crates/cao-core/src/run/executor/work_phases.rs in a Dry Run.
use cao.Shared.{List, [], ◌∷◌, Option, none, some}
use cao.Shared.Paths.{FilePath}
use cao.Request.Choices.{SourceCleanup}
use cao.Run.Lifecycle.{RunDiagnostic, extracting_archives}
use cao.Run.Results.{PlannedOutputArchive, RoutedAssetAttempt, estimate_from_mod_roots_as_they_are}
use cao.Evidence.Operations.{
  planned_phase, collisions, publish_failure, planned_extraction, keep_diagnostic, output_basis,
  planned_output,
}
use cao.Selection.Overlap.{Token}
use cao.Work.Toolset.{ArchiveExtractionPlan, Preflight, CreationPlanning}
use cao.Work.Discover.{after_preflight}
use cao.Work.Extract.{planned_of, record_plans, plan_archive_extractions}
use cao.Work.Process.{retain_all, or_cancelled}
use cao.Work.Finalize.{
  planning_failure, record_outputs, record_capacity_warning, after_creation_planning,
}
use cao.Work.DryRun.Frames.{
  Frames, Any, Frames-bind, Frames-step, Frames-unless_cancelled, Frames-diagnose, Frames-halt,
  Frames-pure,
}

module _ {A W : Type 0} {artifacts : A} {world : W} where
  pub after_preflight_frames :
      (recognized : List FilePath) (decided : Preflight)
      → Frames artifacts world (after_preflight recognized decided) Any
  unfolding after_preflight
  after_preflight_frames recognized (Preflight.failed f) =
      Frames-bind (Frames-step (publish_failure f)) (λ u q. Frames-halt)
  after_preflight_frames recognized Preflight.cancelled = Frames-halt
  after_preflight_frames recognized (Preflight.planned plans cs none) =
      Frames-bind (Frames-step (collisions cs)) (λ u q. Frames-pure _ tt)
  after_preflight_frames recognized (Preflight.planned plans cs (some warning)) =
      Frames-bind (Frames-step (collisions cs))
        (λ u q. Frames-bind (Frames-diagnose warning) (λ v r. Frames-pure _ tt))

  record_plans_frames :
      (stop : Token) (cleanup : SourceCleanup) (plans : List ArchiveExtractionPlan)
      → Frames artifacts world (record_plans stop cleanup plans) Any
  unfolding record_plans
  record_plans_frames stop cleanup [] = Frames-pure tt tt
  record_plans_frames stop cleanup (p ∷ ps) =
      Frames-bind (Frames-step (planned_extraction (planned_of cleanup p)))
        (λ u q. record_plans_frames stop cleanup ps)

  pub plan_extractions_frames :
      (stop : Token) (cleanup : SourceCleanup) (plans : List ArchiveExtractionPlan)
      → Frames artifacts world (plan_archive_extractions stop cleanup plans) Any
  unfolding plan_archive_extractions
  plan_extractions_frames stop cleanup plans =
      Frames-bind (Frames-step (planned_phase extracting_archives)) (λ u q.
        Frames-bind (Frames-unless_cancelled stop) (λ v r.
          Frames-bind (record_plans_frames stop cleanup plans)
            (λ x s. Frames-unless_cancelled stop)))

  pub retain_all_frames : (ds : List RunDiagnostic) → Frames artifacts world (retain_all ds) Any
  unfolding retain_all
  retain_all_frames [] = Frames-pure tt tt
  retain_all_frames (d ∷ ds) =
      Frames-bind (Frames-step (keep_diagnostic d)) (λ u q. retain_all_frames ds)

  pub or_cancelled_frames :
      (o : Option RoutedAssetAttempt) → Frames artifacts world (or_cancelled o) Any
  or_cancelled_frames none = record { at = λ w u. u }
  or_cancelled_frames (some x) = Frames-pure x tt

  record_outputs_frames :
      (os : List PlannedOutputArchive) → Frames artifacts world (record_outputs os) Any
  unfolding record_outputs
  record_outputs_frames [] = Frames-pure tt tt
  record_outputs_frames (o ∷ os) =
      Frames-bind (Frames-step (planned_output o)) (λ u q. record_outputs_frames os)

  warning_frames :
      (warning : Option RunDiagnostic)
      → Frames artifacts world (record_capacity_warning warning) Any
  unfolding record_capacity_warning
  warning_frames none = Frames-pure tt tt
  warning_frames (some warning) = Frames-diagnose warning

  pub after_creation_frames :
      (decided : CreationPlanning) → Frames artifacts world (after_creation_planning decided) Any
  unfolding after_creation_planning
  after_creation_frames CreationPlanning.not_requested = Frames-pure tt tt
  after_creation_frames (CreationPlanning.planned outputs warning) =
      Frames-bind (warning_frames warning) (λ u q.
        Frames-bind (Frames-step (output_basis estimate_from_mod_roots_as_they_are))
          (λ v r. record_outputs_frames outputs))
  after_creation_frames CreationPlanning.cancelled = Frames-halt
  after_creation_frames (CreationPlanning.failed detail) =
      Frames-bind (Frames-step (publish_failure (planning_failure detail))) (λ u q. Frames-halt)
