-- ===== src/Work/Finalize.antt =====
-- `finalize_archives` and `plan_archive_finalization` of
-- crates/cao-core/src/run/executor/work_phases.rs. The lines of the log are left out.
use cao.Shared.{List, [], ◌∷◌, Option, none, some, if◌then◌else◌, Text}
use cao.Routing.Kinds.{ExecutionMode}
use cao.Request.Choices.{ArchiveFinalizationChoices}
use cao.Run.Lifecycle.{
  archive_finalization, RunFailure, run_failure, archive_creation_planning_failed, RunDiagnostic,
}
use cao.Run.Results.{RunPreparation, PlannedOutputArchive, estimate_from_mod_roots_as_they_are}
use cao.Evidence.Operations.{
  planned_phase, open_finalization, output_basis, planned_output, publish_failure, publish_pending,
}
use cao.Selection.Overlap.{Token}
use cao.Work.Flow.{value, pure, ◌>>=◌, ◌>>◌}
use cao.Work.Toolset.{Toolset, CreationPlanning, not_requested, planned, cancelled, failed}
use cao.Work.Worker.{Phase, step, halt, unless_cancelled, diagnose}
use cao.Work.Extract.{is_dry_run}
use cao.Finalization.Finalize

abbrev pub planning_failure : Text → RunFailure
planning_failure detail = run_failure archive_creation_planning_failed archive_finalization detail

module _ {A W : Type 0} where
  -- The loop over the planned outputs.
  unfoldable pub record_outputs : List PlannedOutputArchive → Phase A W (Unit {0})
  unfolding step
  record_outputs [] = pure tt
  record_outputs (o ∷ os) = do step (planned_output o); record_outputs os

  -- `record_capacity_warning`
  unfoldable pub record_capacity_warning : Option RunDiagnostic → Phase A W (Unit {0})
  unfolding diagnose
  record_capacity_warning none = pure tt
  record_capacity_warning (some warning) = diagnose warning

  -- What a Dry Run's planning decides.
  unfoldable pub after_creation_planning : CreationPlanning → Phase A W (Unit {0})
  unfolding step record_outputs record_capacity_warning
  after_creation_planning not_requested = pure tt
  after_creation_planning (planned outputs warning) = do
    record_capacity_warning warning
    step (output_basis estimate_from_mod_roots_as_they_are)
    record_outputs outputs
  after_creation_planning cancelled = halt
  after_creation_planning (failed detail) = do
    step (publish_failure (planning_failure detail))
    halt

module _ {A W : Type 0} (tools : Toolset A W) (stop : Token) (choices : ArchiveFinalizationChoices)
    (preparation : RunPreparation) where
  unfoldable pub plan_creation : Phase A W CreationPlanning
  plan_creation w =
      let (decided, clock) = tools.plan_archive_creation preparation choices w.world w.clock in
      (value decided, record w { clock = clock })

  -- `plan_archive_finalization`
  unfoldable pub plan_archive_finalization : Phase A W (Unit {0})
  unfolding step unless_cancelled plan_creation after_creation_planning
  plan_archive_finalization = do
    step (planned_phase archive_finalization)
    unless_cancelled stop
    decided ← plan_creation
    after_creation_planning decided

  -- `finalize_archives`
  unfoldable pub finalize_archives : ExecutionMode → Phase A W (Unit {0})
  unfolding step unless_cancelled plan_archive_finalization Finalize.finalize_archives
  finalize_archives mode = do
    step publish_pending
    unless_cancelled stop
    if is_dry_run mode then plan_archive_finalization else (do
      step open_finalization
      unless_cancelled stop
      Finalize.finalize_archives tools.seams stop choices preparation)
