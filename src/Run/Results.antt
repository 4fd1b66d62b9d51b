-- ===== src/Run/Results.antt =====
-- The records that attempts and phases leave: Asset execution results
-- (crates/cao-core/src/execution.rs), Archive extraction results (run/archives.rs), Archive
-- Finalization results (run/finalization/mod.rs), Planned Archive Work
-- (run/evidence/planned_work.rs) and Preparing's facts (run/preparation.rs).
use cao.Shared.{ℕ, Bool, true, false, List, [], Option, none, Text}
use cao.Shared.Paths.{FilePath}
use cao.Routing.Kinds.{SkipReason}
use cao.Routing.Policy.{
  RoutingPolicyRequest, ProfileCapabilities, RoutingPolicy, CompileResult, compile,
}
use cao.Routing.Route.{RoutedAsset}
use cao.Request.RunRequest.{ArchivePrecedence}
use cao.Run.Attempt.{MutationState, AttemptOutcome, OperationFailure}
use cao.Run.Lifecycle.{RunFailure}

pub data AssetExecutionFailure : Type 0 where
  unsupported_target identity_mismatch load_failed operation_failed : AssetExecutionFailure
  save_failed source_removal_failed staging_failed commit_failed : AssetExecutionFailure
  backend_exception cleanup_failed : AssetExecutionFailure

pub record AssetExecutionResult : Type 0 where
  pub outcome : AttemptOutcome AssetExecutionFailure
  pub path : FilePath
  pub operation : Text
  pub service_detail : Text
  pub cleanup_failures : List RunFailure

pub record RoutedAssetAttempt : Type 0 where
  pub mod_root : FilePath
  pub asset : RoutedAsset
  pub result : AssetExecutionResult

pub record ArchiveCollision : Type 0 where
  pub mod_root : FilePath
  pub game_path : FilePath
  pub winning_archive : FilePath
  pub shadowed_archives : List FilePath
  pub loose_asset_wins : Bool

pub data ArchiveExtractionFailure : Type 0 where
  extraction_failed merge_failed source_cleanup_failed : ArchiveExtractionFailure
  insufficient_capacity : ArchiveExtractionFailure

pub record ArchiveExtractionResult : Type 0 where
  pub archive_path : FilePath
  pub mod_root : FilePath
  pub outcome : AttemptOutcome ArchiveExtractionFailure

pub data ArchiveFinalizationFailure : Type 0 where
  insufficient_capacity write_failed commit_failed : ArchiveFinalizationFailure
  plugin_creation_failed plugin_removal_failed : ArchiveFinalizationFailure
  source_cleanup_failed unexpected_exception : ArchiveFinalizationFailure

pub record ArchiveFinalizationAttempt : Type 0 where
  pub archive_path : FilePath
  pub mod_root : FilePath
  pub outcome : AttemptOutcome ArchiveFinalizationFailure

pub data ArchiveFinalizationMutationKind : Type 0 where
  empty_directory_pruning plugin_creation plugin_removal : ArchiveFinalizationMutationKind

pub record ArchiveFinalizationMutation : Type 0 where
  pub mod_root : FilePath
  pub path : FilePath
  pub kind : ArchiveFinalizationMutationKind
  pub mutation : MutationState
  pub count : ℕ

pub record ArchiveFinalizationAccount : Type 0 where
  pub failure : Option (OperationFailure ArchiveFinalizationFailure)
  pub cancelled : Bool
  pub safe_to_continue : Bool
  pub mutations : List ArchiveFinalizationMutation

pub record ArchiveFinalizationResult : Type 0 where
  pub attempts : List ArchiveFinalizationAttempt
  pub failure : Option (OperationFailure ArchiveFinalizationFailure)
  pub cancelled : Bool
  pub safe_to_continue : Bool
  pub mutations : List ArchiveFinalizationMutation

abbrev pub default_account : ArchiveFinalizationAccount
default_account = record {
  failure = none;
  cancelled = false;
  safe_to_continue = true;
  mutations = [];
}

abbrev pub from_parts :
    List ArchiveFinalizationAttempt → ArchiveFinalizationAccount → ArchiveFinalizationResult
from_parts attempts account = record {
  attempts = attempts;
  failure = account.failure;
  cancelled = account.cancelled;
  safe_to_continue = account.safe_to_continue;
  mutations = account.mutations;
}

abbrev pub default_finalization_result : ArchiveFinalizationResult
default_finalization_result = from_parts [] default_account

pub record PlannedArchiveExtraction : Type 0 where
  pub archive_path : FilePath
  pub mod_root : FilePath
  pub entry_count : ℕ
  pub winner_count : ℕ
  pub estimated_capacity_bytes : ℕ
  pub deletes_source_archive : Bool

pub data PackedArchiveKind : Type 0 where
  standard incompressible textures : PackedArchiveKind

pub record PlannedOutputArchive : Type 0 where
  pub archive_path : FilePath
  pub mod_root : FilePath
  pub kind : PackedArchiveKind
  pub file_count : ℕ
  pub total_bytes : ℕ
  pub dummy_plugin_path : Option FilePath
  pub deletes_packed_sources : Bool

pub data OutputPlanBasis : Type 0 where
  estimate_from_mod_roots_as_they_are : OutputPlanBasis

pub record PlannedArchiveWork : Type 0 where
  pub extractions : List PlannedArchiveExtraction
  pub outputs : List PlannedOutputArchive
  pub output_basis : Option OutputPlanBasis

pub record SelectedProfile : Type 0 where
  pub capabilities : ProfileCapabilities
  pub prefers_conversion : Bool
  pub ignored_mods : List Text
  pub packing_exclusions : List Text

abbrev pub compile_policy : SelectedProfile → RoutingPolicyRequest → CompileResult
compile_policy p r = compile r p.capabilities p.prefers_conversion

pub record RunPreparation : Type 0 where
  pub mod_roots : List FilePath
  pub selected_profile : SelectedProfile
  pub policy : RoutingPolicy
  pub archive_precedence : ArchivePrecedence

pub record ArchiveDiscoveryEvidence : Type 0 where
  pub skipped_archive_counts : SkipReason → ℕ
  pub unsupported_explicit_paths : List FilePath
  pub nested_archive_count : ℕ

abbrev pub default_discovery : ArchiveDiscoveryEvidence
default_discovery = record {
  skipped_archive_counts = λ r. 0;
  unsupported_explicit_paths = [];
  nested_archive_count = 0;
}

pub data MutationKind : Type 0 where
  archive_extraction asset_processing archive_finalization : MutationKind

pub record MutationSummary : Type 0 where
  pub mod_root : FilePath
  pub kind : MutationKind
  pub committed : ℕ
  pub partial_or_unknown : ℕ
