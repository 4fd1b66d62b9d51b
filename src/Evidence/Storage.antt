-- ===== src/Evidence/Storage.antt =====
-- `Storage` of crates/cao-core/src/run/evidence.rs and the queries of its phases.
use cao.Shared.{
  ℕ, Bool, true, false, ◌&&◌, List, [], ◌∷◌, Option, none, some, ◌==◌, leb, if◌then◌else◌,
}
use cao.Routing.Kinds.{SkipReason}
use cao.Routing.Route.{RoutingLedger}
use cao.Run.Lifecycle.{
  RunPhase, phase_index, RunPhaseStatus, planned, RunPhaseRecord, RunDiagnostic, RunFailure,
}
use cao.Run.Results.{
  RunPreparation, ArchiveCollision, ArchiveExtractionResult, ArchiveDiscoveryEvidence,
  RoutedAssetAttempt, ArchiveFinalizationResult, PlannedArchiveWork, MutationSummary,
}

pub record Storage : Type 0 where
  pub preparation : Option RunPreparation
  -- latest first: only the last record of the vector is ever read or replaced
  pub phases : List RunPhaseRecord
  pub diagnostics : List RunDiagnostic
  pub failures : List RunFailure
  pub archive_collisions : List ArchiveCollision
  pub archive_collisions_recorded : Bool
  pub archive_extraction_attempts : List ArchiveExtractionResult
  pub archive_discovery : Option ArchiveDiscoveryEvidence
  pub skipped_archive_counts_recorded : Bool
  pub nested_archive_count_recorded : Bool
  pub routing_ledger : Option RoutingLedger
  pub asset_attempts : List RoutedAssetAttempt
  pub archive_finalization : Option ArchiveFinalizationResult
  pub archive_finalization_completed : Bool
  pub planned_archive_work : PlannedArchiveWork
  pub safety_cleanup_failures : List RunFailure
  pub cancellation_observed : Bool
  pub cleanup_failures : List RunFailure
  pub mutation_summaries : List MutationSummary
  pub skipped_asset_counts : SkipReason → ℕ

abbrev pub default_storage : Storage
default_storage = record {
  preparation = none;
  phases = [];
  diagnostics = [];
  failures = [];
  archive_collisions = [];
  archive_collisions_recorded = false;
  archive_extraction_attempts = [];
  archive_discovery = none;
  skipped_archive_counts_recorded = false;
  nested_archive_count_recorded = false;
  routing_ledger = none;
  asset_attempts = [];
  archive_finalization = none;
  archive_finalization_completed = false;
  planned_archive_work = record { extractions = []; outputs = []; output_basis = none };
  safety_cleanup_failures = [];
  cancellation_observed = false;
  cleanup_failures = [];
  mutation_summaries = [];
  skipped_asset_counts = λ r. 0;
}

abbrev pub same_phase : RunPhase → RunPhase → Bool
same_phase a b = phase_index a == phase_index b

-- `Storage::phase`; no two records are of one phase.
unfoldable pub find_phase : RunPhase → List RunPhaseRecord → Option RunPhaseRecord
find_phase p [] = none
find_phase p (r ∷ rs) = let rest = find_phase p rs in if same_phase r.phase p then some r else rest

abbrev pub latest : List RunPhaseRecord → Option RunPhaseRecord
latest [] = none
latest (r ∷ rs) = some r

abbrev pub is_at : RunPhase → Option RunPhaseRecord → Bool
is_at p none = false
is_at p (some r) = same_phase r.phase p

-- Whether a phase is the current one.
abbrev pub is_current : Storage → RunPhase → Bool
is_current s p = is_at p (latest s.phases)

abbrev is_planned : RunPhaseStatus → Bool
is_planned planned = true
is_planned _ = false

abbrev planned_at : RunPhase → Option RunPhaseRecord → Bool
planned_at p none = false
planned_at p (some r) = same_phase r.phase p && is_planned r.status

-- `is_planning`
abbrev pub is_planning : Storage → RunPhase → Bool
is_planning s p = planned_at p (latest s.phases)

abbrev in_discovery : Option RunPhaseRecord → Bool
in_discovery none = false
in_discovery (some r) = leb 1 (phase_index r.phase) && leb (phase_index r.phase) 3

-- `archive_discovery_current`: from Discovering Archives to Building Effective Asset Tree.
abbrev pub archive_discovery_current : Storage → Bool
archive_discovery_current s = in_discovery (latest s.phases)

abbrev pub archive_discovery_complete : Storage → Bool
archive_discovery_complete s = s.skipped_archive_counts_recorded && s.nested_archive_count_recorded
