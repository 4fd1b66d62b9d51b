-- ===== src/Executor/Traverse.antt =====
-- `DeferredInvariant` and `RunExecutor::traverse` of crates/cao-core/src/run/executor.rs.
use cao.Shared.{ℕ, ◌+◌, Bool, true, false, List, [], ◌∷◌, Option, none, some, if◌then◌else◌, Text}
use cao.Shared.Paths.{FilePath}
use cao.Routing.Kinds.{ExecutionMode}
use cao.Run.Lifecycle.{
  RunPhase, preparing, work_phases, RunPhaseRecord, executed_record, skipped_record,
  no_requested_work, RunFailure, run_failure, staging_ownership_unverified, run_work_escaped,
}
use cao.Run.Results.{RunPreparation}
use cao.Request.RunRequest.{RunRequest, has_requested_work}
use cao.Evidence.Storage.{Storage, latest}
use cao.Evidence.Sinks.{Evidence, record_failure}
use cao.Evidence.Phases.{Violation, Step, record_phase}
use cao.Evidence.Facts.{record_preparation}
use cao.Evidence.Messages.{Error, to_string}
use cao.Evidence.Operations.{perform_all}
use cao.Selection.Overlap.{Token, Lent}
use cao.Executor.Services.{
  Services, WorkRun, Result, ok, err, Caught, returned, panicked, Escape, no_escape,
  invariant_noted, escaped, escaped_work_detail, is_backend_cancelled,
}
use cao.Executor.Preparing.{Prepared, prepared, cancelled_early, not_prepared, prepare_run}

-- What a traversal changes: the evidence, the Temporary Ownership registry, how many samples of
-- the token were taken, and the first violation noted (`DeferredInvariant`).
pub record Machine (A : Type 0) : Type 0 where
  pub evidence : Evidence
  pub artifacts : A
  pub clock : ℕ
  pub invariant : Option Violation

-- `get_or_insert`
abbrev pub first_violation : Option Violation → Option Violation → Option Violation
first_violation (some v) w = some v
first_violation none w = w

abbrev pub phase_or_preparing : Option RunPhaseRecord → RunPhase
phase_or_preparing none = preparing
phase_or_preparing (some r) = r.phase

-- `current_phase().map_or(RunPhase::Preparing, RunPhaseRecord::phase)`
unfoldable pub current_phase : Storage → RunPhase
current_phase s = phase_or_preparing (latest s.phases)

-- `fail_at_current_phase`
unfoldable pub fail_at_current_phase : Text → Evidence → Evidence
unfolding current_phase
fail_at_current_phase detail e =
    record_failure (run_failure run_work_escaped (current_phase e.storage) detail) e

module _ {A : Type 0} where
  -- `invariant.note(step)`
  unfoldable pub note : Step → Machine A → Machine A
  note s m = record m { evidence = s.0; invariant = first_violation m.invariant s.1 }

  abbrev pub enter : RunPhaseRecord → Machine A → Machine A
  enter r m = note (record_phase r m.evidence) m

  abbrev pub fail_with : RunFailure → Machine A → Machine A
  fail_with f m = record m { evidence = record_failure f m.evidence }

  abbrev pub tick : Machine A → Machine A
  tick m = record m { clock = m.clock + 1 }

  -- The loop over the work phases of a request with no work.
  unfoldable pub skip_phases : Token → List RunPhase → Machine A → Machine A
  skip_phases stop [] m = m
  skip_phases stop (p ∷ ps) m =
      let rest = skip_phases stop ps (enter (skipped_record p no_requested_work) (tick m)) in
      if stop m.clock then tick m else rest

-- How Preparing the Mod Roots ended: whether one failed, or the message of a panic.
abbrev pub RootsEnd : Type 0
RootsEnd = Caught Bool

abbrev pub staging_failure : Error → RunFailure
unfolding to_string
staging_failure e = run_failure staging_ownership_unverified preparing (to_string e)

module _ {A T : Type 0} (services : Services A T) (stop : Token) where
  abbrev pub rooted : A → ℕ → Machine A → Machine A
  rooted a clock m = record m { artifacts = a; clock = clock }

  -- After one root: a failure or a panic leaves the loop, `rest` is what the others give.
  abbrev pub after_root :
      Caught (Result (Option RunFailure)) → Machine A → RootsEnd × Machine A → RootsEnd × Machine A
  after_root (panicked t) m rest = (panicked t, m)
  after_root (returned (err e)) m rest = (returned true, fail_with (staging_failure e) m)
  after_root (returned (ok (some f))) m rest = (returned true, fail_with f m)
  after_root (returned (ok none)) m rest = rest

  -- The loop over the Mod Roots of an Apply run.
  unfoldable pub prepare_roots : List FilePath → Machine A → RootsEnd × Machine A
  prepare_roots [] m = (returned false, m)
  prepare_roots (r ∷ rs) m =
      let called = services.prepare_root r m.artifacts (m.clock + 1) in
      let after = rooted called.1 called.2 m in
      let rest = prepare_roots rs after in
      if stop m.clock then (returned false, tick m) else after_root called.0 after rest

  abbrev pub escape : Escape → Machine A → Machine A
  unfolding fail_at_current_phase
  escape no_escape m = m
  escape (invariant_noted v) m = record m { invariant = first_violation m.invariant (some v) }
  escape (escaped detail) m = record m { evidence = fail_at_current_phase detail m.evidence }

  abbrev pub after_work : WorkRun A → Machine A → Machine A
  after_work w m = record m {
    evidence = perform_all w.operations m.evidence;
    artifacts = w.artifacts;
    clock = w.clock;
  }

  -- Whether the work stopped on a backend's report of cancellation, and what it leaves.
  unfoldable pub run_work : RunRequest → RunPreparation → T → Machine A → Bool × Machine A
  unfolding escaped_work_detail
  run_work request p toolset m =
      let w = services.run_work p request.work_choices toolset m.evidence m.artifacts m.clock in
      (is_backend_cancelled w.end, escape (escaped_work_detail w.end) (after_work w m))

  -- The work, or the skips of a request without work.
  unfoldable pub run_or_skip :
      RunRequest → Option RunPreparation → Option T → Machine A → Bool × Machine A
  unfolding run_work skip_phases
  run_or_skip request (some p) (some toolset) m =
      if has_requested_work request
      then run_work request p toolset m
      else (false, skip_phases stop work_phases m)
  run_or_skip request _ _ m = (false, skip_phases stop work_phases m)

  abbrev pub record_prepared : Option RunPreparation → Machine A → Machine A
  record_prepared none m = m
  record_prepared (some p) m = note (record_preparation p m.evidence) m

  -- `preparation.filter(|_| !failed && !stop.is_cancelled())`
  abbrev pub filter_preparation :
      Option RunPreparation → Bool → Machine A → Option RunPreparation × Machine A
  filter_preparation none failed m = (none, m)
  filter_preparation (some p) failed m =
      if failed then (none, m) else if stop m.clock then (none, tick m) else (some p, tick m)

  unfoldable pub work_phases_of :
      RunRequest → Option RunPreparation → Option T → Bool → Machine A → Bool × Machine A
  work_phases_of request p toolset failed m =
      if failed
      then (false, m)
      else if stop m.clock
      then (false, tick m)
      else run_or_skip request p toolset (tick m)

  -- From the filter of the preparation to the end.
  unfoldable pub finish_traversal :
      RunRequest → Option RunPreparation → Option T → Bool → Machine A → Bool × Machine A
  unfolding work_phases_of run_or_skip note
  finish_traversal request p toolset failed m =
      let kept = filter_preparation p failed m in
      work_phases_of request kept.0 toolset failed (record_prepared kept.0 kept.1)

  abbrev pub is_apply : ExecutionMode → Bool
  is_apply ExecutionMode.apply = true
  is_apply ExecutionMode.dry_run = false

  unfoldable pub proceed :
      RunRequest → RunPreparation → T → RootsEnd × Machine A → Caught Bool × Machine A
  proceed request p toolset (panicked t, m) = (panicked t, m)
  proceed request p toolset (returned failed, m) =
      let end = finish_traversal request (some p) (some toolset) failed m in (returned end.0, end.1)

  unfoldable pub returned_traversal : Bool × Machine A → Caught Bool × Machine A
  returned_traversal (b, m) = (returned b, m)

  unfoldable pub after_prepared :
      RunRequest → Prepared T × Lent → Machine A → Caught Bool × Machine A
  unfolding proceed prepare_roots returned_traversal
  after_prepared request (cancelled_early, l) m = returned_traversal (
      finish_traversal request none none false
        (record m { evidence = l.evidence; clock = l.clock }))
  after_prepared request (not_prepared f, l) m = returned_traversal (
      finish_traversal request none none true
        (fail_with f (record m { evidence = l.evidence; clock = l.clock })))
  after_prepared request (prepared p toolset, l) m =
      let here = record m { evidence = l.evidence; clock = l.clock } in
      if is_apply request.execution_mode
      then proceed request p toolset (prepare_roots p.mod_roots here)
      else returned_traversal (finish_traversal request (some p) (some toolset) false here)

  -- `traverse`: whether a backend reported cancellation, or the message of a panic.
  unfoldable pub traverse : RunRequest → Machine A → Caught Bool × Machine A
  unfolding after_prepared prepare_run finish_traversal returned_traversal
  traverse request m =
      let entered = enter (executed_record preparing none) m in
      let next = tick entered in
      if stop entered.clock
      then returned_traversal (finish_traversal request none none false next)
      else after_prepared request
          (prepare_run services stop request
            (record { evidence = next.evidence; clock = next.clock }))
          next
