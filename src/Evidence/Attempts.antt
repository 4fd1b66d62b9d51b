-- ===== src/Evidence/Attempts.antt =====
-- The attempt phases of crates/cao-core/src/run/evidence.rs and evidence/attempt_phase.rs: the
-- shared progress step, and Archive Finalization's plan and finish.
use cao.Shared.{
  ℕ, ◌+◌, Bool, true, false, not, ◌&&◌, ◌||◌, List, [], ◌∷◌, ◌++◌, Option, none, some, leb,
  if◌then◌else◌, ◌==◌,
}
use cao.Run.Attempt.{succeeded}
use cao.Run.Lifecycle.{
  RunPhase, extracting_archives, processing_assets, archive_finalization, RunPhaseRecord,
  RunProgress, determinate, completed, executed_record,
}
use cao.Run.Results.{
  ArchiveExtractionResult, RoutedAssetAttempt, ArchiveFinalizationAttempt,
  ArchiveFinalizationResult, ArchiveFinalizationAccount, default_finalization_result, from_parts,
}
use cao.Evidence.Storage.{Storage, same_phase, latest}
use cao.Evidence.Sinks.{Evidence}
use cao.Evidence.Phases.{
  Violation, Step, status_index, accept_phase, finalization_plan, finalization_result,
  extraction_outside, extraction_unplanned, extraction_beyond, asset_outside, asset_unplanned,
  asset_beyond, finalization_outside, finalization_beyond,
}

-- `PhaseAttempt`: what the shared step needs of one kind of attempt.
pub record PhaseAttempt (T : Type 0) : Type 0 where
  pub phase : RunPhase
  pub outside_phase : Violation
  pub before_plan : Violation
  pub beyond_total : Violation
  pub succeeded : T → Bool
  pub retain : T → Storage → Storage

abbrev pub extraction_attempt : PhaseAttempt ArchiveExtractionResult
extraction_attempt = record {
  phase = extracting_archives;
  outside_phase = extraction_outside;
  before_plan = extraction_unplanned;
  beyond_total = extraction_beyond;
  succeeded = λ a. succeeded a.outcome;
  retain =
      λ a s. record s { archive_extraction_attempts = s.archive_extraction_attempts ++ a ∷ [] };
}

abbrev pub asset_attempt : PhaseAttempt RoutedAssetAttempt
asset_attempt = record {
  phase = processing_assets;
  outside_phase = asset_outside;
  before_plan = asset_unplanned;
  beyond_total = asset_beyond;
  succeeded = λ a. succeeded a.result.outcome;
  retain = λ a s. record s { asset_attempts = s.asset_attempts ++ a ∷ [] };
}

-- `get_or_insert_with(ArchiveFinalizationResult::default)`
abbrev pub result_or_default : Option ArchiveFinalizationResult → ArchiveFinalizationResult
result_or_default none = default_finalization_result
result_or_default (some r) = r

abbrev push_finalization :
    ArchiveFinalizationAttempt → ArchiveFinalizationResult → ArchiveFinalizationResult
push_finalization a r = record r { attempts = r.attempts ++ a ∷ [] }

abbrev pub finalization_attempt : PhaseAttempt ArchiveFinalizationAttempt
finalization_attempt = record {
  phase = archive_finalization;
  outside_phase = finalization_outside;
  before_plan = finalization_outside;
  beyond_total = finalization_beyond;
  succeeded = λ a. succeeded a.outcome;
  retain = λ a s. record s {
    archive_finalization = some (push_finalization a (result_or_default s.archive_finalization));
  };
}

-- The progress of the latest record, if it is of this phase and executed.
pub data Current : Type 0 where
  elsewhere : Current
  unplanned : Current
  at : RunProgress → Current

abbrev progress_current : Option RunProgress → Current
progress_current none = unplanned
progress_current (some p) = at p

abbrev pub current_of : RunPhase → Option RunPhaseRecord → Current
current_of p none = elsewhere
current_of p (some r) =
    if same_phase r.phase p && status_index r.status == 0
    then progress_current r.progress
    else elsewhere

-- Progress advanced by one attempt.
abbrev pub advance : RunProgress → Bool → RunProgress
advance p ok =
    determinate p.total (p.succeeded + (if ok then 1 else 0)) (p.failed + (if ok then 0 else 1))

module _ {T : Type 0} (k : PhaseAttempt T) where
  abbrev pub retain_in : T → Evidence → Evidence
  retain_in a e = record e { storage = k.retain a e.storage }

  unfoldable pub record_in : Current → T → Evidence → Step
  record_in elsewhere a e = (e, some k.outside_phase)
  record_in unplanned a e = (e, some k.before_plan)
  record_in (at p) a e =
      if leb p.total (completed p)
      then (e, some k.beyond_total)
      else accept_phase (executed_record k.phase (some (advance p (k.succeeded a)))) (retain_in a e)

  -- `record_attempt_progress`
  unfoldable pub record_attempt_progress : T → Evidence → Step
  unfolding record_in
  record_attempt_progress a e = record_in (current_of k.phase (latest e.storage.phases)) a e

abbrev is_unplanned : Current → Bool
is_unplanned unplanned = true
is_unplanned _ = false

abbrev pub is_executing : Current → Bool
is_executing elsewhere = false
is_executing _ = true

-- `plan_archive_finalization`
unfoldable pub plan_archive_finalization : ℕ → Evidence → Step
plan_archive_finalization total e =
    let s = e.storage in
    if not (
      not s.archive_finalization_completed
      && is_unplanned (current_of archive_finalization (latest s.phases)))
    then (e, some finalization_plan)
    else accept_phase (executed_record archive_finalization (some (determinate total 0 0)))
        (record e {
          storage = record s { archive_finalization = some default_finalization_result };
        })

abbrev pub streamed : Option ArchiveFinalizationResult → List ArchiveFinalizationAttempt
streamed none = []
streamed (some r) = r.attempts

-- `finish_archive_finalization`
unfoldable pub finish_archive_finalization : ArchiveFinalizationAccount → Evidence → Step
finish_archive_finalization account e =
    let s = e.storage in
    if s.archive_finalization_completed
      || not (is_executing (current_of archive_finalization (latest s.phases)))
    then (e, some finalization_result)
    else (
      record e {
        storage = record s {
          archive_finalization = some (from_parts (streamed s.archive_finalization) account);
          cancellation_observed = if account.cancelled then true else s.cancellation_observed;
          archive_finalization_completed = true;
        };
      },
      none,
    )
