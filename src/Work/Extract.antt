-- ===== src/Work/Extract.antt =====
-- `extract_archives` and `plan_archive_extractions` of
-- crates/cao-core/src/run/executor/work_phases.rs. The lines of the log are left out.
use cao.Shared.{Bool, true, false, List, [], ◌∷◌, if◌then◌else◌, length}
use cao.Routing.Kinds.{ExecutionMode}
use cao.Request.Choices.{SourceCleanup, backup, remove}
use cao.Run.Attempt.{safe_to_continue}
use cao.Run.Lifecycle.{extracting_archives}
use cao.Run.Results.{ArchiveExtractionResult, PlannedArchiveExtraction}
use cao.Evidence.Operations.{planned_phase, open_extraction, extraction, planned_extraction}
use cao.Selection.Overlap.{Token}
use cao.Work.Flow.{value, pure, ◌>>=◌, ◌>>◌}
use cao.Work.Toolset.{ArchiveExtractionPlan, Toolset}
use cao.Work.Worker.{Phase, step, halt, unless_cancelled}

abbrev pub is_dry_run : ExecutionMode → Bool
is_dry_run ExecutionMode.dry_run = true
is_dry_run ExecutionMode.apply = false

abbrev removes : SourceCleanup → Bool
removes remove = true
removes backup = false

abbrev pub planned_of : SourceCleanup → ArchiveExtractionPlan → PlannedArchiveExtraction
planned_of cleanup plan = record {
  archive_path = plan.archive_path;
  mod_root = plan.mod_root;
  entry_count = length plan.entries;
  winner_count = length plan.merge_entries;
  estimated_capacity_bytes = plan.estimated_capacity_bytes;
  deletes_source_archive = removes cleanup;
}

module _ {A W : Type 0} (stop : Token) (cleanup : SourceCleanup) where
  -- The loop of `plan_archive_extractions`.
  unfoldable pub record_plans : List ArchiveExtractionPlan → Phase A W (Unit {0})
  unfolding step
  record_plans [] = pure tt
  record_plans (plan ∷ plans) = do
    step (planned_extraction (planned_of cleanup plan))
    record_plans plans

  -- `plan_archive_extractions`
  unfoldable pub plan_archive_extractions : List ArchiveExtractionPlan → Phase A W (Unit {0})
  unfolding step record_plans unless_cancelled
  plan_archive_extractions plans = do
    step (planned_phase extracting_archives)
    unless_cancelled stop
    record_plans plans
    unless_cancelled stop

module _ {A W : Type 0} (tools : Toolset A W) (stop : Token) (cleanup : SourceCleanup) where
  -- One extraction; the Run Executor sets the Mod Root of the attempt from the plan.
  unfoldable pub extract : ArchiveExtractionPlan → Phase A W ArchiveExtractionResult
  extract plan w =
      let (attempt, artifacts, world) = tools.extract_archive plan cleanup w.artifacts w.world in
      (
        value (record attempt { mod_root = plan.mod_root }),
        record w { artifacts = artifacts; world = world },
      )

  -- The loop over the plans.
  unfoldable pub extract_all : List ArchiveExtractionPlan → Phase A W (Unit {0})
  unfolding step extract unless_cancelled safe_to_continue
  extract_all [] = pure tt
  extract_all (plan ∷ plans) = do
    unless_cancelled stop
    attempt ← extract plan
    step (extraction attempt)
    if safe_to_continue attempt.outcome then extract_all plans else halt

  -- Without a plan there is no attempt to sample the token after.
  unfoldable pub extract_plans : List ArchiveExtractionPlan → Phase A W (Unit {0})
  unfolding extract_all unless_cancelled
  extract_plans [] = pure tt
  extract_plans (plan ∷ plans) = do extract_all (plan ∷ plans); unless_cancelled stop

  -- `extract_archives`
  unfoldable pub extract_archives :
      ExecutionMode → List ArchiveExtractionPlan → Phase A W (Unit {0})
  unfolding step extract_plans unless_cancelled plan_archive_extractions
  extract_archives mode plans = do
    unless_cancelled stop
    if is_dry_run mode
        then plan_archive_extractions stop cleanup plans
        else (do step (open_extraction (length plans)); unless_cancelled stop; extract_plans plans)
