-- ===== src/Run/Lifecycle.antt =====
-- The lifecycle types of crates/cao-core/src/run/lifecycle.rs.
use cao.Shared.{ℕ, ◌+◌, List, [], ◌∷◌, Option, none, some, Text}
use cao.Shared.Paths.{FilePath}
use cao.Routing.Policy.{PolicyValidationError}
use cao.Run.Attempt.{CapacityShortage}

pub data RunPhase : Type 0 where
  preparing discovering_archives extracting_archives building_effective_asset_tree : RunPhase
  processing_assets archive_finalization safety_cleanup : RunPhase

-- The order that `RunPhase` derives, and its place in `RunPhase::SEQUENCE`.
abbrev pub phase_index : RunPhase → ℕ
phase_index preparing = 0
phase_index discovering_archives = 1
phase_index extracting_archives = 2
phase_index building_effective_asset_tree = 3
phase_index processing_assets = 4
phase_index archive_finalization = 5
phase_index safety_cleanup = 6

-- `SEQUENCE[1..SEQUENCE.len() - 1]`
abbrev pub work_phases : List RunPhase
work_phases =
    discovering_archives ∷ extracting_archives ∷ building_effective_asset_tree ∷ processing_assets
    ∷ archive_finalization ∷ []

pub data RunPhaseStatus : Type 0 where
  executed skipped planned : RunPhaseStatus

pub data PhaseSkipReason : Type 0 where
  no_requested_work : PhaseSkipReason

pub data RunOutcome : Type 0 where
  succeeded completed_with_failures cancelled failed : RunOutcome

pub data RunDiagnosticCode : Type 0 where
  observer_failed dispatcher_failed ignored_mod_excluded separator_mod_excluded : RunDiagnosticCode
  linked_entry_excluded plugin_unreadable capacity_shortage : RunDiagnosticCode

pub record RunDiagnostic : Type 0 where
  pub code : RunDiagnosticCode
  pub phase : RunPhase
  pub detail : Text
  pub path : FilePath
  pub capacity_shortage : Option CapacityShortage

abbrev pub diagnostic : RunDiagnosticCode → RunPhase → Text → RunDiagnostic
diagnostic code phase detail = record {
  code = code;
  phase = phase;
  detail = detail;
  path = [];
  capacity_shortage = none;
}

pub data RunFailureCode : Type 0 where
  scheduling_failed policy_conflict configuration_loading_failed : RunFailureCode
  mod_selection_resolution_failed conflicting_mod_roots : RunFailureCode
  temporary_artifact_cleanup_failed safety_cleanup_service_failed : RunFailureCode
  staging_ownership_unverified staging_active staging_recovery_failed : RunFailureCode
  archive_order_missing archive_order_extra archive_order_duplicate : RunFailureCode
  archive_order_outside_root archive_unreadable archive_entry_invalid : RunFailureCode
  archive_insufficient_capacity archive_creation_planning_failed run_work_escaped : RunFailureCode

pub record RunFailure : Type 0 where
  pub code : RunFailureCode
  pub phase : RunPhase
  pub detail : Text
  pub policy_conflicts : List PolicyValidationError
  pub path : FilePath
  pub capacity_shortage : Option CapacityShortage

abbrev pub run_failure : RunFailureCode → RunPhase → Text → RunFailure
run_failure code phase detail = record {
  code = code;
  phase = phase;
  detail = detail;
  policy_conflicts = [];
  path = [];
  capacity_shortage = none;
}

pub record RunProgress : Type 0 where
  pub total : ℕ
  pub succeeded : ℕ
  pub failed : ℕ

abbrev pub determinate : ℕ → ℕ → ℕ → RunProgress
determinate n done lost = record { total = n; succeeded = done; failed = lost }

abbrev pub completed : RunProgress → ℕ
completed p = p.succeeded + p.failed

pub record RunPhaseRecord : Type 0 where
  pub phase : RunPhase
  pub status : RunPhaseStatus
  pub skip_reason : Option PhaseSkipReason
  pub progress : Option RunProgress

abbrev pub executed_record : RunPhase → Option RunProgress → RunPhaseRecord
executed_record phase progress = record {
  phase = phase;
  status = executed;
  skip_reason = none;
  progress = progress;
}

abbrev pub skipped_record : RunPhase → PhaseSkipReason → RunPhaseRecord
skipped_record phase reason = record {
  phase = phase;
  status = skipped;
  skip_reason = some reason;
  progress = none;
}

abbrev pub planned_record : RunPhase → RunPhaseRecord
planned_record phase = record {
  phase = phase;
  status = planned;
  skip_reason = none;
  progress = none;
}
