-- ===== src/Evidence/Messages.antt =====
-- The messages of the invariants of Run Evidence (crates/cao-core/src/run/evidence.rs and
-- evidence/attempt_phase.rs), and `Error` of crates/cao-core/src/error.rs with its text.
use cao.Shared.{Text, codes, ◌++◌}
use cao.Evidence.Phases.{
  Violation, progress_exceeds_total, status_immutable, progress_begins_at_zero,
  progress_indeterminate, total_immutable, progress_regresses, traversal_begins_at_preparing,
  canonical_order, handle_only, not_plannable, opened_once, preparation_once,
  preparation_during_preparing, collisions_during_discovering, collisions_once,
  skipped_counts_during_discovery, skipped_counts_once, nested_count_during_discovery,
  nested_count_once, ledger_after_discovery, routing_once, finalization_plan, finalization_result,
  extraction_outside, extraction_unplanned, extraction_beyond, asset_outside, asset_unplanned,
  asset_beyond, finalization_outside, finalization_beyond, planned_extraction_outside,
  basis_outside, basis_once, output_outside, output_without_basis, cleanup_failure_outside,
  consumed_before_cleanup,
}

unfoldable pub message : Violation → Text
message progress_exceeds_total = codes "Run Phase progress exceeds its immutable total"
message status_immutable = codes "Run Phase status and skip reason are immutable after traversal"
message progress_begins_at_zero = codes "Determinate Run Phase progress must begin at zero"
message progress_indeterminate = codes "Run Phase progress cannot become indeterminate"
message total_immutable = codes "Run Phase progress total cannot change"
message progress_regresses = codes "Run Phase progress cannot regress"
message traversal_begins_at_preparing = codes "Run Phase traversal must begin at Preparing"
message canonical_order = codes "Run Phases must follow canonical traversal order"
message handle_only =
    codes "An attempt-bearing Run Phase can only be executed through its attempt-phase handle"
message not_plannable = codes "Only Extracting Archives and Archive Finalization can be planned"
message opened_once = codes "An attempt-bearing Run Phase can only be opened once"
message preparation_once = codes "Successful Run preparation can only be recorded once"
message preparation_during_preparing =
    codes "Successful Run preparation must be recorded during Preparing"
message collisions_during_discovering =
    codes "Archive Collisions must be recorded during Discovering Archives"
message collisions_once = codes "Archive Collisions can only be recorded once"
message skipped_counts_during_discovery =
    codes "Skipped Archive counts must be recorded during Archive discovery"
message skipped_counts_once = codes "Skipped Archive counts can only be recorded once"
message nested_count_during_discovery =
    codes "The nested Archive count must be recorded during Archive discovery"
message nested_count_once = codes "The nested Archive count can only be recorded once"
message ledger_after_discovery =
    codes "Routing Ledger requires completed, successful Effective Asset Tree discovery"
message routing_once = codes "Definitive routing can only be recorded once"
message finalization_plan =
    codes "Archive Finalization needs an executed phase and one immutable plan"
message finalization_result =
    codes "Archive Finalization results require the executed work phase exactly once"
message extraction_outside =
    codes "Archive extraction attempts must be recorded during Extracting Archives"
message extraction_unplanned = codes "Archive extraction attempts require a planned total"
message extraction_beyond = codes "Archive extraction attempts cannot exceed the planned total"
message asset_outside = codes "Asset attempts must be recorded during Processing Assets"
message asset_unplanned = codes "Asset attempts require a planned routed-work total"
message asset_beyond = codes "Asset attempts cannot exceed the routed-work total"
message finalization_outside =
    codes "Archive Finalization attempts require the immutable executed plan"
message finalization_beyond = codes "Archive Finalization attempts cannot exceed the planned total"
message planned_extraction_outside =
    codes "Planned Archive extractions must be recorded during a Planned Extracting Archives"
message basis_outside =
    codes "An output plan basis must be recorded during a Planned Archive Finalization"
message basis_once = codes "An output plan basis can only be recorded once"
message output_outside =
    codes "Planned output Archives must be recorded during a Planned Archive Finalization"
message output_without_basis =
    codes "Planned output Archives must follow the basis they were planned from"
message cleanup_failure_outside =
    codes "Safety Cleanup failures require the cleanup phase and a cleanup failure code"
message consumed_before_cleanup = codes "Run Evidence can only be consumed after Safety Cleanup"

-- `Error`: every variant but the first shows the text that it carries.
pub data Error : Type 0 where
  evidence_invariant : Violation → Error
  other_error : Text → Error

unfoldable pub to_string : Error → Text
unfolding message
to_string (evidence_invariant v) = codes "Run Evidence invariant violated: " ++ message v
to_string (other_error t) = t
