-- ===== src/Evidence/Facts.antt =====
-- The once-only facts of crates/cao-core/src/run/evidence.rs, Planned Archive Work, Safety Cleanup
-- failures and the observed cancellation.
use cao.Shared.{
  ℕ, Bool, true, false, not, ◌||◌, List, [], ◌∷◌, ◌++◌, Option, none, some, if◌then◌else◌, is_some,
}
use cao.Routing.Kinds.{SkipReason}
use cao.Run.Lifecycle.{
  preparing, discovering_archives, extracting_archives, archive_finalization, safety_cleanup,
  RunFailure, RunFailureCode, temporary_artifact_cleanup_failed, safety_cleanup_service_failed,
}
use cao.Run.Results.{
  RunPreparation, ArchiveCollision, ArchiveDiscoveryEvidence, default_discovery,
  PlannedArchiveExtraction, PlannedOutputArchive, OutputPlanBasis, PlannedArchiveWork,
}
use cao.Evidence.Storage.{Storage, same_phase, is_current, is_planning, archive_discovery_current}
use cao.Evidence.Sinks.{Evidence}
use cao.Evidence.Phases.{
  Step, preparation_once, preparation_during_preparing, collisions_during_discovering,
  collisions_once, skipped_counts_during_discovery, skipped_counts_once,
  nested_count_during_discovery, nested_count_once, planned_extraction_outside, basis_outside,
  basis_once, output_outside, output_without_basis, cleanup_failure_outside,
}

-- `record_preparation`
unfoldable pub record_preparation : RunPreparation → Evidence → Step
record_preparation p e =
    let s = e.storage in
    if is_some s.preparation
    then (e, some preparation_once)
    else if not (is_current s preparing)
    then (e, some preparation_during_preparing)
    else (record e { storage = record s { preparation = some p } }, none)

-- `record_archive_collisions`
unfoldable pub record_archive_collisions : List ArchiveCollision → Evidence → Step
record_archive_collisions cs e =
    let s = e.storage in
    if not (is_current s discovering_archives)
    then (e, some collisions_during_discovering)
    else if s.archive_collisions_recorded
    then (e, some collisions_once)
    else (
      record e {
        storage = record s { archive_collisions = cs; archive_collisions_recorded = true };
      },
      none,
    )

-- `get_or_insert_default`
abbrev pub discovery_or_default : Option ArchiveDiscoveryEvidence → ArchiveDiscoveryEvidence
discovery_or_default none = default_discovery
discovery_or_default (some d) = d

-- `record_skipped_archive_counts`
unfoldable pub record_skipped_archive_counts : (SkipReason → ℕ) → Evidence → Step
record_skipped_archive_counts counts e =
    let s = e.storage in
    let d = discovery_or_default s.archive_discovery in
    if not (archive_discovery_current s)
    then (e, some skipped_counts_during_discovery)
    else if s.skipped_archive_counts_recorded
    then (e, some skipped_counts_once)
    else (
      record e {
        storage = record s {
          skipped_archive_counts_recorded = true;
          archive_discovery = some (record d { skipped_archive_counts = counts });
        };
      },
      none,
    )

-- `record_nested_archive_count`
unfoldable pub record_nested_archive_count : ℕ → Evidence → Step
record_nested_archive_count n e =
    let s = e.storage in
    let d = discovery_or_default s.archive_discovery in
    if not (archive_discovery_current s)
    then (e, some nested_count_during_discovery)
    else if s.nested_archive_count_recorded
    then (e, some nested_count_once)
    else (
      record e {
        storage = record s {
          nested_archive_count_recorded = true;
          archive_discovery = some (record d { nested_archive_count = n });
        };
      },
      none,
    )

abbrev pub with_planned : Storage → PlannedArchiveWork → Storage
with_planned s w = record s { planned_archive_work = w }

-- `record_planned_extraction`
unfoldable pub record_planned_extraction : PlannedArchiveExtraction → Evidence → Step
record_planned_extraction x e =
    let s = e.storage in
    let w = s.planned_archive_work in
    if not (is_planning s extracting_archives) then (e, some planned_extraction_outside) else (
      record e { storage = with_planned s (record w { extractions = w.extractions ++ x ∷ [] }) },
      none,
    )

-- `record_output_plan_basis`
unfoldable pub record_output_plan_basis : OutputPlanBasis → Evidence → Step
record_output_plan_basis b e =
    let s = e.storage in
    let w = s.planned_archive_work in
    if not (is_planning s archive_finalization)
    then (e, some basis_outside)
    else if is_some w.output_basis
    then (e, some basis_once)
    else (record e { storage = with_planned s (record w { output_basis = some b }) }, none)

-- `record_planned_output`
unfoldable pub record_planned_output : PlannedOutputArchive → Evidence → Step
record_planned_output o e =
    let s = e.storage in
    let w = s.planned_archive_work in
    if not (is_planning s archive_finalization)
    then (e, some output_outside)
    else if not (is_some w.output_basis)
    then (e, some output_without_basis)
    else (record e { storage = with_planned s (record w { outputs = w.outputs ++ o ∷ [] }) }, none)

abbrev pub is_cleanup_code : RunFailureCode → Bool
is_cleanup_code temporary_artifact_cleanup_failed = true
is_cleanup_code safety_cleanup_service_failed = true
is_cleanup_code _ = false

-- `record_safety_cleanup_failure`
unfoldable pub record_safety_cleanup_failure : RunFailure → Evidence → Step
record_safety_cleanup_failure f e =
    let s = e.storage in
    if not (is_current s safety_cleanup)
      || (not (same_phase f.phase safety_cleanup) || not (is_cleanup_code f.code))
    then (e, some cleanup_failure_outside)
    else (
      record e {
        storage = record s { safety_cleanup_failures = s.safety_cleanup_failures ++ f ∷ [] };
      },
      none,
    )

-- `record_cancellation_observation`
unfoldable pub record_cancellation_observation : Evidence → Evidence
record_cancellation_observation e =
    let s = e.storage in record e { storage = record s { cancellation_observed = true } }
