-- ===== src/Evidence/Phases.antt =====
-- The phase transitions of crates/cao-core/src/run/evidence.rs: `validate_progress`,
-- `validate_replacement`, `accept_phase`, `record_phase` and the openers.
use cao.Shared.{
  ℕ, Bool, true, false, not, ◌&&◌, ◌||◌, List, [], ◌∷◌, Option, none, some, ◌==◌, leb, ltb,
  if◌then◌else◌, length, is_some,
}
use cao.Routing.Route.{RoutingLedger}
use cao.Run.Lifecycle.{
  RunPhase, preparing, extracting_archives, building_effective_asset_tree, processing_assets,
  archive_finalization, safety_cleanup, phase_index, RunPhaseStatus, executed, skipped, planned,
  PhaseSkipReason, no_requested_work, RunPhaseRecord, RunProgress, determinate, completed,
  executed_record,
}
use cao.Evidence.Storage.{Storage, same_phase, find_phase, is_current, archive_discovery_complete}
use cao.Evidence.Sinks.{Evidence, Publication, publish}

-- The invariant that a refused step reports, a constructor for each message.
pub data Violation : Type 0 where
  progress_exceeds_total status_immutable progress_begins_at_zero : Violation
  progress_indeterminate total_immutable progress_regresses : Violation
  traversal_begins_at_preparing canonical_order : Violation
  handle_only not_plannable opened_once : Violation
  preparation_once preparation_during_preparing : Violation
  collisions_during_discovering collisions_once : Violation
  skipped_counts_during_discovery skipped_counts_once : Violation
  nested_count_during_discovery nested_count_once : Violation
  ledger_after_discovery routing_once : Violation
  finalization_plan finalization_result : Violation
  extraction_outside extraction_unplanned extraction_beyond : Violation
  asset_outside asset_unplanned asset_beyond : Violation
  finalization_outside finalization_beyond : Violation
  planned_extraction_outside basis_outside basis_once output_outside output_without_basis :
      Violation
  cleanup_failure_outside consumed_before_cleanup : Violation

-- A step's new state, and the invariant that it reports, if any.
abbrev pub Step : Type 0
Step = Evidence × Option Violation

abbrev pub status_index : RunPhaseStatus → ℕ
status_index executed = 0
status_index skipped = 1
status_index planned = 2

abbrev pub exceeds : Option RunProgress → Bool
exceeds none = false
exceeds (some p) = ltb p.total (completed p)

abbrev pub has_completed : Option RunProgress → Bool
has_completed none = false
has_completed (some p) = not (completed p == 0)

unfoldable pub validate_progress : RunPhaseRecord → Option Violation
validate_progress r = if exceeds r.progress then some progress_exceeds_total else none

abbrev validate_account : Option RunProgress → Option RunProgress → Option Violation
validate_account none after = if has_completed after then some progress_begins_at_zero else none
validate_account (some before) none = some progress_indeterminate
validate_account (some before) (some after) =
    if not (before.total == after.total)
    then some total_immutable
    else if ltb after.succeeded before.succeeded || ltb after.failed before.failed
    then some progress_regresses
    else none

abbrev same_reason : Option PhaseSkipReason → Option PhaseSkipReason → Bool
same_reason none none = true
same_reason (some no_requested_work) (some no_requested_work) = true
same_reason _ _ = false

unfoldable pub validate_replacement : RunPhaseRecord → RunPhaseRecord → Option Violation
validate_replacement previous replacement =
    if not (status_index previous.status == status_index replacement.status)
      || not (same_reason previous.skip_reason replacement.skip_reason)
    then some status_immutable
    else if exceeds replacement.progress
    then some progress_exceeds_total
    else validate_account previous.progress replacement.progress

-- The checks of `accept_phase`, in their order.
phase_violation : List RunPhaseRecord → RunPhaseRecord → Option Violation
unfolding validate_replacement
phase_violation [] r =
    if not (same_phase r.phase preparing) && not (same_phase r.phase safety_cleanup)
    then some traversal_begins_at_preparing
    else if has_completed r.progress
    then some progress_begins_at_zero
    else none
phase_violation (l ∷ ls) r =
    if same_phase l.phase r.phase
    then validate_replacement l r
    else if leb (phase_index r.phase) (phase_index l.phase)
    then some canonical_order
    else if has_completed r.progress
    then some progress_begins_at_zero
    else none

unfoldable pub accept_violation : List RunPhaseRecord → RunPhaseRecord → Option Violation
unfolding phase_violation
accept_violation phases r =
    if exceeds r.progress then some progress_exceeds_total else phase_violation phases r

-- A record of the current phase replaces the latest one, any other is pushed.
unfoldable pub put_phase : List RunPhaseRecord → RunPhaseRecord → List RunPhaseRecord
put_phase [] r = r ∷ []
put_phase (l ∷ ls) r = if same_phase l.phase r.phase then r ∷ ls else r ∷ l ∷ ls

abbrev pub with_phases : Storage → List RunPhaseRecord → Storage
with_phases s phases = record s { phases = phases }

unfoldable pub finish_accept : Option Violation → RunPhaseRecord → Evidence → Step
unfolding put_phase
finish_accept (some v) r e = (e, some v)
finish_accept none r e = (
  publish r.phase (Publication.phase r)
      (record e { storage = with_phases e.storage (put_phase e.storage.phases r) }),
  none,
)

-- `accept_phase`
unfoldable pub accept_phase : RunPhaseRecord → Evidence → Step
unfolding finish_accept accept_violation
accept_phase r e = finish_accept (accept_violation e.storage.phases r) r e

abbrev pub is_attempt_bearing : RunPhase → Bool
is_attempt_bearing extracting_archives = true
is_attempt_bearing processing_assets = true
is_attempt_bearing archive_finalization = true
is_attempt_bearing _ = false

abbrev pub is_plannable : RunPhase → Bool
is_plannable extracting_archives = true
is_plannable archive_finalization = true
is_plannable _ = false

record_violation : RunPhaseStatus → RunPhase → Option Violation
record_violation executed p = if is_attempt_bearing p then some handle_only else none
record_violation planned p = if not (is_plannable p) then some not_plannable else none
record_violation skipped p = none

finish_record : Option Violation → RunPhaseRecord → Evidence → Step
finish_record (some v) r e = (e, some v)
finish_record none r e = accept_phase r e

-- `record_phase`
unfoldable pub record_phase : RunPhaseRecord → Evidence → Step
unfolding record_violation finish_record
record_phase r e = finish_record (record_violation r.status r.phase) r e

-- `open_attempt_phase`
unfoldable pub open_attempt_phase : RunPhaseRecord → Evidence → Step
open_attempt_phase r e =
    if is_some (find_phase r.phase e.storage.phases)
    then (e, some opened_once)
    else accept_phase r e

-- `open_archive_extraction`; the handle that an opener returns is the right to record attempts.
unfoldable pub open_archive_extraction : ℕ → Evidence → Step
open_archive_extraction total e =
    open_attempt_phase (executed_record extracting_archives (some (determinate total 0 0))) e

-- `open_archive_finalization`
unfoldable pub open_archive_finalization : Evidence → Step
open_archive_finalization e = open_attempt_phase (executed_record archive_finalization none) e

abbrev is_nil {ℓ} : {A : Type ℓ} → List A → Bool
is_nil [] = true
is_nil (_ ∷ _) = false

-- `open_processing_assets`: the ledger is stored before the phase is entered.
unfoldable pub open_processing_assets : RoutingLedger → Evidence → Step
open_processing_assets ledger e =
    let s = e.storage in
    if not (is_current s building_effective_asset_tree)
      || (not (archive_discovery_complete s) || not (is_nil s.failures))
    then (e, some ledger_after_discovery)
    else if is_some s.routing_ledger
    then (e, some routing_once)
    else open_attempt_phase
        (executed_record processing_assets (some (determinate (length ledger.routed_assets) 0 0)))
        (record e { storage = record s { routing_ledger = some ledger } })
